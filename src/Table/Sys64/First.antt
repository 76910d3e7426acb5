-- ===== src/Table/Sys64/First.antt =====
-- include/strace_data.h: rows 0x0 to 0x79 of `SYS64_LIST`.
use make_strace.Common.{List, [], ◌∷◌}
use make_strace.Table.Types.{
  Row, row, arg_fd, arg_flags, arg_gid, arg_input_bytes, arg_int, arg_long, arg_mode, arg_none,
  arg_offset, arg_output_bytes, arg_pid, arg_ptr, arg_signal, arg_size, arg_str, arg_struct_ptr,
  arg_uid, arg_uint, arg_ulong, arg_vstr,
}

unfoldable pub sys64_rows_1 : List Row
unfolding row
sys64_rows_1 =
    row 0x0 3 "read" (arg_fd ∷ arg_output_bytes ∷ arg_size ∷ [])
    ∷ row 0x1 3 "write" (arg_fd ∷ arg_input_bytes ∷ arg_size ∷ [])
    ∷ row 0x2 3 "open" (arg_str ∷ arg_flags ∷ arg_mode ∷ [])
    ∷ row 0x3 1 "close" (arg_fd ∷ [])
    ∷ row 0x4 2 "newstat" (arg_str ∷ arg_struct_ptr ∷ [])
    ∷ row 0x5 2 "newfstat" (arg_fd ∷ arg_struct_ptr ∷ [])
    ∷ row 0x6 2 "newlstat" (arg_str ∷ arg_struct_ptr ∷ [])
    ∷ row 0x7 3 "poll" (arg_struct_ptr ∷ arg_uint ∷ arg_int ∷ [])
    ∷ row 0x8 3 "lseek" (arg_fd ∷ arg_offset ∷ arg_uint ∷ [])
    ∷ row 0x9 6 "mmap" (arg_ulong ∷ arg_ulong ∷ arg_ulong ∷ arg_flags ∷ arg_fd ∷ arg_ulong ∷ [])
    ∷ row 0xa 3 "mprotect" (arg_ulong ∷ arg_size ∷ arg_ulong ∷ [])
    ∷ row 0xb 2 "munmap" (arg_ulong ∷ arg_size ∷ [])
    ∷ row 0xc 1 "brk" (arg_ulong ∷ [])
    ∷ row 0xd 4 "rt_sigaction" (arg_signal ∷ arg_struct_ptr ∷ arg_struct_ptr ∷ arg_size ∷ [])
    ∷ row 0xe 4 "rt_sigprocmask" (arg_int ∷ arg_signal ∷ arg_signal ∷ arg_size ∷ [])
    ∷ row 0xf 0 "rt_sigreturn" (arg_none ∷ [])
    ∷ row 0x10 3 "ioctl" (arg_fd ∷ arg_uint ∷ arg_ulong ∷ [])
    ∷ row 0x11 4 "pread64" (arg_fd ∷ arg_output_bytes ∷ arg_size ∷ arg_offset ∷ [])
    ∷ row 0x12 4 "pwrite64" (arg_fd ∷ arg_input_bytes ∷ arg_size ∷ arg_offset ∷ [])
    ∷ row 0x13 3 "readv" (arg_fd ∷ arg_struct_ptr ∷ arg_ulong ∷ [])
    ∷ row 0x14 3 "writev" (arg_fd ∷ arg_struct_ptr ∷ arg_ulong ∷ [])
    ∷ row 0x15 2 "access" (arg_str ∷ arg_int ∷ [])
    ∷ row 0x16 1 "pipe" (arg_fd ∷ [])
    ∷ row 0x17 5 "select" (arg_int ∷ arg_ptr ∷ arg_ptr ∷ arg_ptr ∷ arg_struct_ptr ∷ [])
    ∷ row 0x18 0 "sched_yield" (arg_none ∷ [])
    ∷ row 0x19 5 "mremap" (arg_ulong ∷ arg_ulong ∷ arg_ulong ∷ arg_flags ∷ arg_ulong ∷ [])
    ∷ row 0x1a 3 "msync" (arg_ulong ∷ arg_size ∷ arg_flags ∷ [])
    ∷ row 0x1b 3 "mincore" (arg_ulong ∷ arg_size ∷ arg_str ∷ [])
    ∷ row 0x1c 3 "madvise" (arg_ulong ∷ arg_size ∷ arg_int ∷ [])
    ∷ row 0x1d 3 "shmget" (arg_int ∷ arg_size ∷ arg_flags ∷ [])
    ∷ row 0x1e 3 "shmat" (arg_int ∷ arg_str ∷ arg_flags ∷ [])
    ∷ row 0x1f 3 "shmctl" (arg_int ∷ arg_int ∷ arg_struct_ptr ∷ [])
    ∷ row 0x20 1 "dup" (arg_fd ∷ [])
    ∷ row 0x21 2 "dup2" (arg_fd ∷ arg_fd ∷ [])
    ∷ row 0x22 0 "pause" (arg_none ∷ [])
    ∷ row 0x23 2 "nanosleep" (arg_struct_ptr ∷ arg_struct_ptr ∷ [])
    ∷ row 0x24 2 "getitimer" (arg_int ∷ arg_struct_ptr ∷ [])
    ∷ row 0x25 1 "alarm" (arg_uint ∷ [])
    ∷ row 0x26 3 "setitimer" (arg_int ∷ arg_struct_ptr ∷ arg_struct_ptr ∷ [])
    ∷ row 0x27 0 "getpid" (arg_none ∷ [])
    ∷ row 0x28 4 "sendfile64" (arg_int ∷ arg_int ∷ arg_offset ∷ arg_size ∷ [])
    ∷ row 0x29 3 "socket" (arg_int ∷ arg_int ∷ arg_int ∷ [])
    ∷ row 0x2a 3 "connect" (arg_fd ∷ arg_struct_ptr ∷ arg_int ∷ [])
    ∷ row 0x2b 3 "accept" (arg_fd ∷ arg_struct_ptr ∷ arg_ptr ∷ [])
    ∷ row 0x2c 6 "sendto" (arg_fd ∷ arg_ptr ∷ arg_size ∷ arg_flags ∷ arg_struct_ptr ∷ arg_int ∷ [])
    ∷ row 0x2d 6 "recvfrom"
        (arg_fd ∷ arg_ptr ∷ arg_size ∷ arg_flags ∷ arg_struct_ptr ∷ arg_ptr ∷ [])
    ∷ row 0x2e 3 "sendmsg" (arg_fd ∷ arg_struct_ptr ∷ arg_flags ∷ [])
    ∷ row 0x2f 3 "recvmsg" (arg_fd ∷ arg_struct_ptr ∷ arg_flags ∷ [])
    ∷ row 0x30 2 "shutdown" (arg_fd ∷ arg_int ∷ [])
    ∷ row 0x31 3 "bind" (arg_fd ∷ arg_struct_ptr ∷ arg_int ∷ [])
    ∷ row 0x32 2 "listen" (arg_fd ∷ arg_int ∷ [])
    ∷ row 0x33 3 "getsockname" (arg_fd ∷ arg_struct_ptr ∷ arg_ptr ∷ [])
    ∷ row 0x34 3 "getpeername" (arg_fd ∷ arg_struct_ptr ∷ arg_ptr ∷ [])
    ∷ row 0x35 4 "socketpair" (arg_int ∷ arg_int ∷ arg_int ∷ arg_ptr ∷ [])
    ∷ row 0x36 5 "setsockopt" (arg_fd ∷ arg_int ∷ arg_int ∷ arg_str ∷ arg_int ∷ [])
    ∷ row 0x37 5 "getsockopt" (arg_fd ∷ arg_int ∷ arg_int ∷ arg_str ∷ arg_ptr ∷ [])
    ∷ row 0x38 5 "clone" (arg_flags ∷ arg_ulong ∷ arg_ptr ∷ arg_ptr ∷ arg_ulong ∷ [])
    ∷ row 0x39 0 "fork" (arg_none ∷ [])
    ∷ row 0x3a 0 "vfork" (arg_none ∷ [])
    ∷ row 0x3b 3 "execve" (arg_str ∷ arg_vstr ∷ arg_ptr ∷ [])
    ∷ row 0x3c 1 "exit" (arg_int ∷ [])
    ∷ row 0x3d 4 "wait4" (arg_pid ∷ arg_ptr ∷ arg_int ∷ arg_struct_ptr ∷ [])
    ∷ row 0x3e 2 "kill" (arg_pid ∷ arg_signal ∷ [])
    ∷ row 0x3f 1 "newuname" (arg_struct_ptr ∷ [])
    ∷ row 0x40 3 "semget" (arg_int ∷ arg_int ∷ arg_flags ∷ [])
    ∷ row 0x41 3 "semop" (arg_int ∷ arg_struct_ptr ∷ arg_int ∷ [])
    ∷ row 0x42 4 "semctl" (arg_int ∷ arg_int ∷ arg_int ∷ arg_ulong ∷ [])
    ∷ row 0x43 1 "shmdt" (arg_str ∷ [])
    ∷ row 0x44 2 "msgget" (arg_int ∷ arg_flags ∷ [])
    ∷ row 0x45 4 "msgsnd" (arg_int ∷ arg_struct_ptr ∷ arg_int ∷ arg_flags ∷ [])
    ∷ row 0x46 5 "msgrcv" (arg_int ∷ arg_struct_ptr ∷ arg_int ∷ arg_long ∷ arg_flags ∷ [])
    ∷ row 0x47 3 "msgctl" (arg_int ∷ arg_int ∷ arg_struct_ptr ∷ [])
    ∷ row 0x48 3 "fcntl" (arg_fd ∷ arg_uint ∷ arg_ulong ∷ [])
    ∷ row 0x49 2 "flock" (arg_fd ∷ arg_uint ∷ [])
    ∷ row 0x4a 1 "fsync" (arg_fd ∷ [])
    ∷ row 0x4b 1 "fdatasync" (arg_fd ∷ [])
    ∷ row 0x4c 2 "truncate" (arg_str ∷ arg_long ∷ [])
    ∷ row 0x4d 2 "ftruncate" (arg_fd ∷ arg_offset ∷ [])
    ∷ row 0x4e 3 "getdents" (arg_fd ∷ arg_struct_ptr ∷ arg_uint ∷ [])
    ∷ row 0x4f 2 "getcwd" (arg_output_bytes ∷ arg_ulong ∷ [])
    ∷ row 0x50 1 "chdir" (arg_str ∷ [])
    ∷ row 0x51 1 "fchdir" (arg_fd ∷ [])
    ∷ row 0x52 2 "rename" (arg_str ∷ arg_str ∷ [])
    ∷ row 0x53 2 "mkdir" (arg_str ∷ arg_mode ∷ [])
    ∷ row 0x54 1 "rmdir" (arg_str ∷ [])
    ∷ row 0x55 2 "creat" (arg_str ∷ arg_mode ∷ [])
    ∷ row 0x56 2 "link" (arg_str ∷ arg_str ∷ [])
    ∷ row 0x57 1 "unlink" (arg_str ∷ [])
    ∷ row 0x58 2 "symlink" (arg_str ∷ arg_str ∷ [])
    ∷ row 0x59 3 "readlink" (arg_str ∷ arg_output_bytes ∷ arg_int ∷ [])
    ∷ row 0x5a 2 "chmod" (arg_str ∷ arg_mode ∷ [])
    ∷ row 0x5b 2 "fchmod" (arg_fd ∷ arg_mode ∷ [])
    ∷ row 0x5c 3 "chown" (arg_str ∷ arg_uid ∷ arg_gid ∷ [])
    ∷ row 0x5d 3 "fchown" (arg_fd ∷ arg_uid ∷ arg_gid ∷ [])
    ∷ row 0x5e 3 "lchown" (arg_str ∷ arg_uid ∷ arg_gid ∷ [])
    ∷ row 0x5f 1 "umask" (arg_flags ∷ [])
    ∷ row 0x60 2 "gettimeofday" (arg_struct_ptr ∷ arg_struct_ptr ∷ [])
    ∷ row 0x61 2 "getrlimit" (arg_uint ∷ arg_struct_ptr ∷ [])
    ∷ row 0x62 2 "getrusage" (arg_int ∷ arg_struct_ptr ∷ [])
    ∷ row 0x63 1 "sysinfo" (arg_struct_ptr ∷ [])
    ∷ row 0x64 1 "times" (arg_struct_ptr ∷ [])
    ∷ row 0x65 4 "ptrace" (arg_long ∷ arg_long ∷ arg_ulong ∷ arg_ulong ∷ [])
    ∷ row 0x66 0 "getuid" (arg_none ∷ [])
    ∷ row 0x67 3 "syslog" (arg_int ∷ arg_str ∷ arg_int ∷ [])
    ∷ row 0x68 0 "getgid" (arg_none ∷ [])
    ∷ row 0x69 1 "setuid" (arg_uid ∷ [])
    ∷ row 0x6a 1 "setgid" (arg_gid ∷ [])
    ∷ row 0x6b 0 "geteuid" (arg_none ∷ [])
    ∷ row 0x6c 0 "getegid" (arg_none ∷ [])
    ∷ row 0x6d 2 "setpgid" (arg_pid ∷ arg_pid ∷ [])
    ∷ row 0x6e 0 "getppid" (arg_none ∷ [])
    ∷ row 0x6f 0 "getpgrp" (arg_none ∷ [])
    ∷ row 0x70 0 "setsid" (arg_none ∷ [])
    ∷ row 0x71 2 "setreuid" (arg_uid ∷ arg_uid ∷ [])
    ∷ row 0x72 2 "setregid" (arg_gid ∷ arg_gid ∷ [])
    ∷ row 0x73 2 "getgroups" (arg_int ∷ arg_gid ∷ [])
    ∷ row 0x74 2 "setgroups" (arg_int ∷ arg_gid ∷ [])
    ∷ row 0x75 3 "setresuid" (arg_uid ∷ arg_uid ∷ arg_uid ∷ [])
    ∷ row 0x76 3 "getresuid" (arg_uid ∷ arg_uid ∷ arg_uid ∷ [])
    ∷ row 0x77 3 "setresgid" (arg_gid ∷ arg_gid ∷ arg_gid ∷ [])
    ∷ row 0x78 3 "getresgid" (arg_gid ∷ arg_gid ∷ arg_gid ∷ [])
    ∷ row 0x79 1 "getpgid" (arg_pid ∷ [])
    ∷ []
