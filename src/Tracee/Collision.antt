-- ===== src/Tracee/Collision.antt =====
-- ft_strace.c, `print_quoted`: buffers that print alike.
