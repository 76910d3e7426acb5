-- ===== src/Table/Sys64/Third.antt =====
-- include/strace_data.h: rows 0x105 to 0x1d5 of `SYS64_LIST`.
use make_strace.Common.{List, [], ◌∷◌}
use make_strace.Table.Types.{
  Row, row, arg_fd, arg_flags, arg_int, arg_long, arg_mode, arg_none, arg_offset, arg_output_bytes,
  arg_pid, arg_ptr, arg_signal, arg_size, arg_str, arg_struct_ptr, arg_uint, arg_ulong, arg_vstr,
}

unfoldable pub sys64_rows_3 : List Row
unfolding row
sys64_rows_3 =
    row 0x105 3 "futimesat" (arg_int ∷ arg_str ∷ arg_struct_ptr ∷ [])
    ∷ row 0x106 4 "newfstatat" (arg_int ∷ arg_str ∷ arg_struct_ptr ∷ arg_flags ∷ [])
    ∷ row 0x107 3 "unlinkat" (arg_int ∷ arg_str ∷ arg_flags ∷ [])
    ∷ row 0x108 4 "renameat" (arg_int ∷ arg_str ∷ arg_int ∷ arg_str ∷ [])
    ∷ row 0x109 5 "linkat" (arg_int ∷ arg_str ∷ arg_int ∷ arg_str ∷ arg_flags ∷ [])
    ∷ row 0x10a 3 "symlinkat" (arg_str ∷ arg_int ∷ arg_str ∷ [])
    ∷ row 0x10b 4 "readlinkat" (arg_int ∷ arg_str ∷ arg_output_bytes ∷ arg_int ∷ [])
    ∷ row 0x10c 3 "fchmodat" (arg_int ∷ arg_str ∷ arg_mode ∷ [])
    ∷ row 0x10d 3 "faccessat" (arg_int ∷ arg_str ∷ arg_int ∷ [])
    ∷ row 0x10e 6 "pselect6" (arg_int ∷ arg_ptr ∷ arg_ptr ∷ arg_ptr ∷ arg_struct_ptr ∷ arg_ptr ∷ [])
    ∷ row 0x10f 5 "ppoll" (arg_struct_ptr ∷ arg_uint ∷ arg_struct_ptr ∷ arg_signal ∷ arg_size ∷ [])
    ∷ row 0x110 1 "unshare" (arg_flags ∷ [])
    ∷ row 0x111 2 "set_robust_list" (arg_struct_ptr ∷ arg_size ∷ [])
    ∷ row 0x112 3 "get_robust_list" (arg_int ∷ arg_struct_ptr ∷ arg_size ∷ [])
    ∷ row 0x113 6 "splice" (arg_int ∷ arg_offset ∷ arg_int ∷ arg_offset ∷ arg_size ∷ arg_flags ∷ [])
    ∷ row 0x114 4 "tee" (arg_int ∷ arg_int ∷ arg_size ∷ arg_flags ∷ [])
    ∷ row 0x115 4 "sync_file_range" (arg_fd ∷ arg_offset ∷ arg_offset ∷ arg_flags ∷ [])
    ∷ row 0x116 4 "vmsplice" (arg_fd ∷ arg_struct_ptr ∷ arg_ulong ∷ arg_flags ∷ [])
    ∷ row 0x117 6 "move_pages" (arg_pid ∷ arg_ulong ∷ arg_ptr ∷ arg_ptr ∷ arg_ptr ∷ arg_flags ∷ [])
    ∷ row 0x118 4 "utimensat" (arg_int ∷ arg_str ∷ arg_struct_ptr ∷ arg_flags ∷ [])
    ∷ row 0x119 6 "epoll_pwait"
        (arg_int ∷ arg_struct_ptr ∷ arg_int ∷ arg_int ∷ arg_signal ∷ arg_size ∷ [])
    ∷ row 0x11a 3 "signalfd" (arg_int ∷ arg_signal ∷ arg_size ∷ [])
    ∷ row 0x11b 2 "timerfd_create" (arg_int ∷ arg_flags ∷ [])
    ∷ row 0x11c 1 "eventfd" (arg_uint ∷ [])
    ∷ row 0x11d 4 "fallocate" (arg_fd ∷ arg_int ∷ arg_offset ∷ arg_offset ∷ [])
    ∷ row 0x11e 4 "timerfd_settime" (arg_int ∷ arg_flags ∷ arg_struct_ptr ∷ arg_struct_ptr ∷ [])
    ∷ row 0x11f 2 "timerfd_gettime" (arg_int ∷ arg_struct_ptr ∷ [])
    ∷ row 0x120 4 "accept4" (arg_fd ∷ arg_struct_ptr ∷ arg_ptr ∷ arg_flags ∷ [])
    ∷ row 0x121 4 "signalfd4" (arg_int ∷ arg_signal ∷ arg_size ∷ arg_flags ∷ [])
    ∷ row 0x122 2 "eventfd2" (arg_uint ∷ arg_flags ∷ [])
    ∷ row 0x123 1 "epoll_create1" (arg_flags ∷ [])
    ∷ row 0x124 3 "dup3" (arg_fd ∷ arg_fd ∷ arg_flags ∷ [])
    ∷ row 0x125 2 "pipe2" (arg_fd ∷ arg_flags ∷ [])
    ∷ row 0x126 1 "inotify_init1" (arg_flags ∷ [])
    ∷ row 0x127 5 "preadv" (arg_fd ∷ arg_struct_ptr ∷ arg_ulong ∷ arg_ulong ∷ arg_ulong ∷ [])
    ∷ row 0x128 5 "pwritev" (arg_fd ∷ arg_struct_ptr ∷ arg_ulong ∷ arg_ulong ∷ arg_ulong ∷ [])
    ∷ row 0x129 4 "rt_tgsigqueueinfo" (arg_pid ∷ arg_pid ∷ arg_signal ∷ arg_ptr ∷ [])
    ∷ row 0x12a 5 "perf_event_open" (arg_struct_ptr ∷ arg_pid ∷ arg_int ∷ arg_int ∷ arg_flags ∷ [])
    ∷ row 0x12b 5 "recvmmsg" (arg_fd ∷ arg_struct_ptr ∷ arg_uint ∷ arg_flags ∷ arg_struct_ptr ∷ [])
    ∷ row 0x12c 2 "fanotify_init" (arg_flags ∷ arg_flags ∷ [])
    ∷ row 0x12d 5 "fanotify_mark" (arg_int ∷ arg_flags ∷ arg_flags ∷ arg_int ∷ arg_str ∷ [])
    ∷ row 0x12e 4 "prlimit64" (arg_pid ∷ arg_uint ∷ arg_struct_ptr ∷ arg_struct_ptr ∷ [])
    ∷ row 0x12f 5 "name_to_handle_at"
        (arg_int ∷ arg_str ∷ arg_struct_ptr ∷ arg_ptr ∷ arg_flags ∷ [])
    ∷ row 0x130 3 "open_by_handle_at" (arg_int ∷ arg_struct_ptr ∷ arg_flags ∷ [])
    ∷ row 0x131 2 "clock_adjtime" (arg_int ∷ arg_struct_ptr ∷ [])
    ∷ row 0x132 1 "syncfs" (arg_fd ∷ [])
    ∷ row 0x133 4 "sendmmsg" (arg_fd ∷ arg_struct_ptr ∷ arg_uint ∷ arg_flags ∷ [])
    ∷ row 0x134 2 "setns" (arg_fd ∷ arg_flags ∷ [])
    ∷ row 0x135 3 "getcpu" (arg_ptr ∷ arg_ptr ∷ arg_struct_ptr ∷ [])
    ∷ row 0x136 6 "process_vm_readv"
        (arg_pid ∷ arg_struct_ptr ∷ arg_ulong ∷ arg_struct_ptr ∷ arg_ulong ∷ arg_flags ∷ [])
    ∷ row 0x137 6 "process_vm_writev"
        (arg_pid ∷ arg_struct_ptr ∷ arg_ulong ∷ arg_struct_ptr ∷ arg_ulong ∷ arg_flags ∷ [])
    ∷ row 0x138 5 "kcmp" (arg_pid ∷ arg_pid ∷ arg_int ∷ arg_ulong ∷ arg_ulong ∷ [])
    ∷ row 0x139 3 "finit_module" (arg_fd ∷ arg_str ∷ arg_flags ∷ [])
    ∷ row 0x13a 3 "sched_setattr" (arg_pid ∷ arg_struct_ptr ∷ arg_flags ∷ [])
    ∷ row 0x13b 4 "sched_getattr" (arg_pid ∷ arg_struct_ptr ∷ arg_uint ∷ arg_flags ∷ [])
    ∷ row 0x13c 5 "renameat2" (arg_int ∷ arg_str ∷ arg_int ∷ arg_str ∷ arg_flags ∷ [])
    ∷ row 0x13d 3 "seccomp" (arg_uint ∷ arg_flags ∷ arg_ptr ∷ [])
    ∷ row 0x13e 3 "getrandom" (arg_output_bytes ∷ arg_size ∷ arg_flags ∷ [])
    ∷ row 0x13f 2 "memfd_create" (arg_str ∷ arg_flags ∷ [])
    ∷ row 0x140 5 "kexec_file_load" (arg_int ∷ arg_int ∷ arg_ulong ∷ arg_str ∷ arg_flags ∷ [])
    ∷ row 0x141 3 "bpf" (arg_int ∷ arg_ptr ∷ arg_uint ∷ [])
    ∷ row 0x142 5 "execveat" (arg_fd ∷ arg_str ∷ arg_vstr ∷ arg_ptr ∷ arg_flags ∷ [])
    ∷ row 0x143 1 "userfaultfd" (arg_flags ∷ [])
    ∷ row 0x144 3 "membarrier" (arg_int ∷ arg_flags ∷ arg_int ∷ [])
    ∷ row 0x145 3 "mlock2" (arg_ulong ∷ arg_size ∷ arg_flags ∷ [])
    ∷ row 0x146 6 "copy_file_range"
        (arg_int ∷ arg_offset ∷ arg_int ∷ arg_offset ∷ arg_size ∷ arg_flags ∷ [])
    ∷ row 0x147 6 "preadv2"
        (arg_fd ∷ arg_struct_ptr ∷ arg_ulong ∷ arg_ulong ∷ arg_ulong ∷ arg_flags ∷ [])
    ∷ row 0x148 6 "pwritev2"
        (arg_fd ∷ arg_struct_ptr ∷ arg_ulong ∷ arg_ulong ∷ arg_ulong ∷ arg_flags ∷ [])
    ∷ row 0x149 4 "pkey_mprotect" (arg_ulong ∷ arg_size ∷ arg_ulong ∷ arg_int ∷ [])
    ∷ row 0x14a 2 "pkey_alloc" (arg_flags ∷ arg_ulong ∷ [])
    ∷ row 0x14b 1 "pkey_free" (arg_int ∷ [])
    ∷ row 0x14c 5 "statx" (arg_int ∷ arg_str ∷ arg_flags ∷ arg_flags ∷ arg_struct_ptr ∷ [])
    ∷ row 0x14d 6 "io_pgetevents"
        (arg_int ∷ arg_long ∷ arg_long ∷ arg_struct_ptr ∷ arg_struct_ptr ∷ arg_struct_ptr ∷ [])
    ∷ row 0x14e 4 "rseq" (arg_struct_ptr ∷ arg_int ∷ arg_flags ∷ arg_signal ∷ [])
    ∷ row 0x14f 0 "uretprobe" (arg_none ∷ [])
    ∷ row 0x1a8 4 "pidfd_send_signal" (arg_int ∷ arg_signal ∷ arg_ptr ∷ arg_flags ∷ [])
    ∷ row 0x1a9 2 "io_uring_setup" (arg_int ∷ arg_struct_ptr ∷ [])
    ∷ row 0x1aa 6 "io_uring_enter" (arg_fd ∷ arg_int ∷ arg_int ∷ arg_flags ∷ arg_ptr ∷ arg_int ∷ [])
    ∷ row 0x1ab 4 "io_uring_register" (arg_fd ∷ arg_uint ∷ arg_ptr ∷ arg_uint ∷ [])
    ∷ row 0x1ac 3 "open_tree" (arg_int ∷ arg_str ∷ arg_flags ∷ [])
    ∷ row 0x1ad 5 "move_mount" (arg_int ∷ arg_str ∷ arg_int ∷ arg_str ∷ arg_flags ∷ [])
    ∷ row 0x1ae 2 "fsopen" (arg_str ∷ arg_flags ∷ [])
    ∷ row 0x1af 5 "fsconfig" (arg_fd ∷ arg_uint ∷ arg_str ∷ arg_ptr ∷ arg_int ∷ [])
    ∷ row 0x1b0 3 "fsmount" (arg_int ∷ arg_flags ∷ arg_flags ∷ [])
    ∷ row 0x1b1 3 "fspick" (arg_int ∷ arg_str ∷ arg_flags ∷ [])
    ∷ row 0x1b2 2 "pidfd_open" (arg_pid ∷ arg_flags ∷ [])
    ∷ row 0x1b3 2 "clone3" (arg_struct_ptr ∷ arg_size ∷ [])
    ∷ row 0x1b4 3 "close_range" (arg_fd ∷ arg_uint ∷ arg_flags ∷ [])
    ∷ row 0x1b5 4 "openat2" (arg_int ∷ arg_str ∷ arg_struct_ptr ∷ arg_size ∷ [])
    ∷ row 0x1b6 3 "pidfd_getfd" (arg_int ∷ arg_fd ∷ arg_flags ∷ [])
    ∷ row 0x1b7 4 "faccessat2" (arg_int ∷ arg_str ∷ arg_int ∷ arg_flags ∷ [])
    ∷ row 0x1b8 5 "process_madvise" (arg_int ∷ arg_struct_ptr ∷ arg_size ∷ arg_int ∷ arg_flags ∷ [])
    ∷ row 0x1b9 6 "epoll_pwait2"
        (arg_int ∷ arg_struct_ptr ∷ arg_int ∷ arg_struct_ptr ∷ arg_signal ∷ arg_size ∷ [])
    ∷ row 0x1ba 5 "mount_setattr" (arg_int ∷ arg_str ∷ arg_flags ∷ arg_struct_ptr ∷ arg_size ∷ [])
    ∷ row 0x1bb 4 "quotactl_fd" (arg_fd ∷ arg_uint ∷ arg_int ∷ arg_ptr ∷ [])
    ∷ row 0x1bc 3 "landlock_create_ruleset" (arg_struct_ptr ∷ arg_size ∷ arg_flags ∷ [])
    ∷ row 0x1bd 4 "landlock_add_rule" (arg_int ∷ arg_int ∷ arg_ptr ∷ arg_flags ∷ [])
    ∷ row 0x1be 2 "landlock_restrict_self" (arg_int ∷ arg_flags ∷ [])
    ∷ row 0x1bf 1 "memfd_secret" (arg_flags ∷ [])
    ∷ row 0x1c0 2 "process_mrelease" (arg_int ∷ arg_flags ∷ [])
    ∷ row 0x1c1 5 "futex_waitv"
        (arg_struct_ptr ∷ arg_uint ∷ arg_flags ∷ arg_struct_ptr ∷ arg_int ∷ [])
    ∷ row 0x1c2 4 "set_mempolicy_home_node" (arg_ulong ∷ arg_ulong ∷ arg_ulong ∷ arg_flags ∷ [])
    ∷ row 0x1c3 4 "cachestat" (arg_fd ∷ arg_struct_ptr ∷ arg_struct_ptr ∷ arg_flags ∷ [])
    ∷ row 0x1c4 4 "fchmodat2" (arg_int ∷ arg_str ∷ arg_mode ∷ arg_flags ∷ [])
    ∷ row 0x1c5 3 "map_shadow_stack" (arg_ulong ∷ arg_ulong ∷ arg_flags ∷ [])
    ∷ row 0x1c6 4 "futex_wake" (arg_ptr ∷ arg_flags ∷ arg_int ∷ arg_flags ∷ [])
    ∷ row 0x1c7 6 "futex_wait"
        (arg_ptr ∷ arg_ulong ∷ arg_flags ∷ arg_flags ∷ arg_struct_ptr ∷ arg_int ∷ [])
    ∷ row 0x1c8 4 "futex_requeue" (arg_struct_ptr ∷ arg_flags ∷ arg_int ∷ arg_int ∷ [])
    ∷ row 0x1c9 4 "statmount" (arg_struct_ptr ∷ arg_struct_ptr ∷ arg_size ∷ arg_flags ∷ [])
    ∷ row 0x1ca 4 "listmount" (arg_struct_ptr ∷ arg_ptr ∷ arg_int ∷ arg_flags ∷ [])
    ∷ row 0x1cb 4 "lsm_get_self_attr" (arg_uint ∷ arg_struct_ptr ∷ arg_ptr ∷ arg_flags ∷ [])
    ∷ row 0x1cc 4 "lsm_set_self_attr" (arg_uint ∷ arg_struct_ptr ∷ arg_int ∷ arg_flags ∷ [])
    ∷ row 0x1cd 3 "lsm_list_modules" (arg_ptr ∷ arg_ptr ∷ arg_flags ∷ [])
    ∷ row 0x1ce 3 "mseal" (arg_ulong ∷ arg_size ∷ arg_flags ∷ [])
    ∷ row 0x1cf 6 "setxattrat"
        (arg_int ∷ arg_str ∷ arg_flags ∷ arg_str ∷ arg_struct_ptr ∷ arg_size ∷ [])
    ∷ row 0x1d0 6 "getxattrat"
        (arg_int ∷ arg_str ∷ arg_flags ∷ arg_str ∷ arg_struct_ptr ∷ arg_size ∷ [])
    ∷ row 0x1d1 5 "listxattrat" (arg_int ∷ arg_str ∷ arg_flags ∷ arg_output_bytes ∷ arg_size ∷ [])
    ∷ row 0x1d2 4 "removexattrat" (arg_int ∷ arg_str ∷ arg_flags ∷ arg_str ∷ [])
    ∷ row 0x1d3 5 "open_tree_attr" (arg_int ∷ arg_str ∷ arg_flags ∷ arg_struct_ptr ∷ arg_size ∷ [])
    ∷ row 0x1d4 5 "file_getattr" (arg_int ∷ arg_str ∷ arg_struct_ptr ∷ arg_size ∷ arg_flags ∷ [])
    ∷ row 0x1d5 5 "file_setattr" (arg_int ∷ arg_str ∷ arg_struct_ptr ∷ arg_size ∷ arg_flags ∷ [])
    ∷ []
