-- ===== src/Table/Sys32/Second.antt =====
-- include/strace_data.h: rows 0x9e to 0x139 of `SYS32_LIST`.
use make_strace.Common.{List, [], ◌∷◌}
use make_strace.Table.Types.{
  Row, row, arg_fd, arg_flags, arg_gid, arg_input_bytes, arg_int, arg_long, arg_mode, arg_none,
  arg_offset, arg_output_bytes, arg_pid, arg_ptr, arg_signal, arg_size, arg_str, arg_struct_ptr,
  arg_uid, arg_uint, arg_ulong,
}

unfoldable pub sys32_rows_2 : List Row
unfolding row
sys32_rows_2 =
    row 0x9e 0 "sched_yield" (arg_none ∷ [])
    ∷ row 0x9f 1 "sched_get_priority_max" (arg_int ∷ [])
    ∷ row 0xa0 1 "sched_get_priority_min" (arg_int ∷ [])
    ∷ row 0xa1 2 "sched_rr_get_interval" (arg_pid ∷ arg_struct_ptr ∷ [])
    ∷ row 0xa2 2 "nanosleep" (arg_struct_ptr ∷ arg_struct_ptr ∷ [])
    ∷ row 0xa3 5 "mremap" (arg_ulong ∷ arg_ulong ∷ arg_ulong ∷ arg_flags ∷ arg_ulong ∷ [])
    ∷ row 0xa4 3 "setresuid16" (arg_uid ∷ arg_uid ∷ arg_uid ∷ [])
    ∷ row 0xa5 3 "getresuid16" (arg_uid ∷ arg_uid ∷ arg_uid ∷ [])
    ∷ row 0xa6 2 "vm86" (arg_ulong ∷ arg_ulong ∷ [])
    ∷ row 0xa8 3 "poll" (arg_struct_ptr ∷ arg_uint ∷ arg_int ∷ [])
    ∷ row 0xaa 3 "setresgid16" (arg_gid ∷ arg_gid ∷ arg_gid ∷ [])
    ∷ row 0xab 3 "getresgid16" (arg_gid ∷ arg_gid ∷ arg_gid ∷ [])
    ∷ row 0xac 5 "prctl" (arg_int ∷ arg_ulong ∷ arg_ulong ∷ arg_ulong ∷ arg_ulong ∷ [])
    ∷ row 0xad 0 "rt_sigreturn" (arg_none ∷ [])
    ∷ row 0xae 4 "rt_sigaction" (arg_signal ∷ arg_struct_ptr ∷ arg_struct_ptr ∷ arg_size ∷ [])
    ∷ row 0xaf 4 "rt_sigprocmask" (arg_int ∷ arg_signal ∷ arg_signal ∷ arg_size ∷ [])
    ∷ row 0xb0 2 "rt_sigpending" (arg_signal ∷ arg_size ∷ [])
    ∷ row 0xb1 4 "rt_sigtimedwait" (arg_signal ∷ arg_ptr ∷ arg_struct_ptr ∷ arg_size ∷ [])
    ∷ row 0xb2 3 "rt_sigqueueinfo" (arg_pid ∷ arg_signal ∷ arg_ptr ∷ [])
    ∷ row 0xb3 2 "rt_sigsuspend" (arg_signal ∷ arg_size ∷ [])
    ∷ row 0xb4 5 "pread64" (arg_fd ∷ arg_output_bytes ∷ arg_int ∷ arg_int ∷ arg_int ∷ [])
    ∷ row 0xb5 5 "pwrite64" (arg_fd ∷ arg_input_bytes ∷ arg_int ∷ arg_int ∷ arg_int ∷ [])
    ∷ row 0xb6 3 "chown16" (arg_str ∷ arg_uid ∷ arg_gid ∷ [])
    ∷ row 0xb7 2 "getcwd" (arg_output_bytes ∷ arg_ulong ∷ [])
    ∷ row 0xb8 2 "capget" (arg_int ∷ arg_int ∷ [])
    ∷ row 0xb9 2 "capset" (arg_int ∷ arg_int ∷ [])
    ∷ row 0xba 2 "sigaltstack" (arg_ptr ∷ arg_ptr ∷ [])
    ∷ row 0xbb 4 "sendfile" (arg_int ∷ arg_int ∷ arg_offset ∷ arg_size ∷ [])
    ∷ row 0xbe 0 "vfork" (arg_none ∷ [])
    ∷ row 0xbf 2 "getrlimit" (arg_uint ∷ arg_struct_ptr ∷ [])
    ∷ row 0xc0 6 "mmap_pgoff"
        (arg_ulong ∷ arg_ulong ∷ arg_ulong ∷ arg_flags ∷ arg_fd ∷ arg_ulong ∷ [])
    ∷ row 0xc1 3 "truncate64" (arg_str ∷ arg_ulong ∷ arg_ulong ∷ [])
    ∷ row 0xc2 3 "ftruncate64" (arg_fd ∷ arg_ulong ∷ arg_ulong ∷ [])
    ∷ row 0xc3 2 "stat64" (arg_str ∷ arg_struct_ptr ∷ [])
    ∷ row 0xc4 2 "lstat64" (arg_str ∷ arg_struct_ptr ∷ [])
    ∷ row 0xc5 2 "fstat64" (arg_fd ∷ arg_struct_ptr ∷ [])
    ∷ row 0xc6 3 "lchown" (arg_str ∷ arg_uid ∷ arg_gid ∷ [])
    ∷ row 0xc7 0 "getuid" (arg_none ∷ [])
    ∷ row 0xc8 0 "getgid" (arg_none ∷ [])
    ∷ row 0xc9 0 "geteuid" (arg_none ∷ [])
    ∷ row 0xca 0 "getegid" (arg_none ∷ [])
    ∷ row 0xcb 2 "setreuid" (arg_uid ∷ arg_uid ∷ [])
    ∷ row 0xcc 2 "setregid" (arg_gid ∷ arg_gid ∷ [])
    ∷ row 0xcd 2 "getgroups" (arg_int ∷ arg_gid ∷ [])
    ∷ row 0xce 2 "setgroups" (arg_int ∷ arg_gid ∷ [])
    ∷ row 0xcf 3 "fchown" (arg_fd ∷ arg_uid ∷ arg_gid ∷ [])
    ∷ row 0xd0 3 "setresuid" (arg_uid ∷ arg_uid ∷ arg_uid ∷ [])
    ∷ row 0xd1 3 "getresuid" (arg_uid ∷ arg_uid ∷ arg_uid ∷ [])
    ∷ row 0xd2 3 "setresgid" (arg_gid ∷ arg_gid ∷ arg_gid ∷ [])
    ∷ row 0xd3 3 "getresgid" (arg_gid ∷ arg_gid ∷ arg_gid ∷ [])
    ∷ row 0xd4 3 "chown" (arg_str ∷ arg_uid ∷ arg_gid ∷ [])
    ∷ row 0xd5 1 "setuid" (arg_uid ∷ [])
    ∷ row 0xd6 1 "setgid" (arg_gid ∷ [])
    ∷ row 0xd7 1 "setfsuid" (arg_uid ∷ [])
    ∷ row 0xd8 1 "setfsgid" (arg_gid ∷ [])
    ∷ row 0xd9 2 "pivot_root" (arg_str ∷ arg_str ∷ [])
    ∷ row 0xda 3 "mincore" (arg_ulong ∷ arg_size ∷ arg_str ∷ [])
    ∷ row 0xdb 3 "madvise" (arg_ulong ∷ arg_size ∷ arg_int ∷ [])
    ∷ row 0xdc 3 "getdents64" (arg_fd ∷ arg_struct_ptr ∷ arg_uint ∷ [])
    ∷ row 0xdd 3 "fcntl64" (arg_fd ∷ arg_uint ∷ arg_ulong ∷ [])
    ∷ row 0xe0 0 "gettid" (arg_none ∷ [])
    ∷ row 0xe1 4 "readahead" (arg_fd ∷ arg_uint ∷ arg_uint ∷ arg_size ∷ [])
    ∷ row 0xe2 5 "setxattr" (arg_str ∷ arg_str ∷ arg_ptr ∷ arg_size ∷ arg_flags ∷ [])
    ∷ row 0xe3 5 "lsetxattr" (arg_str ∷ arg_str ∷ arg_ptr ∷ arg_size ∷ arg_flags ∷ [])
    ∷ row 0xe4 5 "fsetxattr" (arg_fd ∷ arg_str ∷ arg_ptr ∷ arg_size ∷ arg_flags ∷ [])
    ∷ row 0xe5 4 "getxattr" (arg_str ∷ arg_str ∷ arg_ptr ∷ arg_size ∷ [])
    ∷ row 0xe6 4 "lgetxattr" (arg_str ∷ arg_str ∷ arg_ptr ∷ arg_size ∷ [])
    ∷ row 0xe7 4 "fgetxattr" (arg_fd ∷ arg_str ∷ arg_ptr ∷ arg_size ∷ [])
    ∷ row 0xe8 3 "listxattr" (arg_str ∷ arg_output_bytes ∷ arg_size ∷ [])
    ∷ row 0xe9 3 "llistxattr" (arg_str ∷ arg_output_bytes ∷ arg_size ∷ [])
    ∷ row 0xea 3 "flistxattr" (arg_fd ∷ arg_output_bytes ∷ arg_size ∷ [])
    ∷ row 0xeb 2 "removexattr" (arg_str ∷ arg_str ∷ [])
    ∷ row 0xec 2 "lremovexattr" (arg_str ∷ arg_str ∷ [])
    ∷ row 0xed 2 "fremovexattr" (arg_fd ∷ arg_str ∷ [])
    ∷ row 0xee 2 "tkill" (arg_pid ∷ arg_signal ∷ [])
    ∷ row 0xef 4 "sendfile64" (arg_int ∷ arg_int ∷ arg_offset ∷ arg_size ∷ [])
    ∷ row 0xf0 6 "futex" (arg_ptr ∷ arg_int ∷ arg_int ∷ arg_struct_ptr ∷ arg_ptr ∷ arg_int ∷ [])
    ∷ row 0xf1 3 "sched_setaffinity" (arg_pid ∷ arg_uint ∷ arg_flags ∷ [])
    ∷ row 0xf2 3 "sched_getaffinity" (arg_pid ∷ arg_uint ∷ arg_flags ∷ [])
    ∷ row 0xf3 1 "set_thread_area" (arg_struct_ptr ∷ [])
    ∷ row 0xf4 1 "get_thread_area" (arg_struct_ptr ∷ [])
    ∷ row 0xf5 2 "io_setup" (arg_int ∷ arg_ptr ∷ [])
    ∷ row 0xf6 1 "io_destroy" (arg_int ∷ [])
    ∷ row 0xf7 5 "io_getevents" (arg_int ∷ arg_int ∷ arg_int ∷ arg_struct_ptr ∷ arg_struct_ptr ∷ [])
    ∷ row 0xf8 3 "io_submit" (arg_int ∷ arg_long ∷ arg_struct_ptr ∷ [])
    ∷ row 0xf9 3 "io_cancel" (arg_int ∷ arg_struct_ptr ∷ arg_struct_ptr ∷ [])
    ∷ row 0xfa 5 "fadvise64" (arg_fd ∷ arg_uint ∷ arg_uint ∷ arg_size ∷ arg_int ∷ [])
    ∷ row 0xfc 1 "exit_group" (arg_int ∷ [])
    ∷ row 0xfe 1 "epoll_create" (arg_int ∷ [])
    ∷ row 0xff 4 "epoll_ctl" (arg_int ∷ arg_int ∷ arg_fd ∷ arg_struct_ptr ∷ [])
    ∷ row 0x100 4 "epoll_wait" (arg_int ∷ arg_struct_ptr ∷ arg_int ∷ arg_int ∷ [])
    ∷ row 0x101 5 "remap_file_pages"
        (arg_ulong ∷ arg_ulong ∷ arg_ulong ∷ arg_ulong ∷ arg_flags ∷ [])
    ∷ row 0x102 1 "set_tid_address" (arg_ptr ∷ [])
    ∷ row 0x103 3 "timer_create" (arg_int ∷ arg_struct_ptr ∷ arg_ptr ∷ [])
    ∷ row 0x104 4 "timer_settime" (arg_int ∷ arg_flags ∷ arg_struct_ptr ∷ arg_struct_ptr ∷ [])
    ∷ row 0x105 2 "timer_gettime" (arg_int ∷ arg_struct_ptr ∷ [])
    ∷ row 0x106 1 "timer_getoverrun" (arg_int ∷ [])
    ∷ row 0x107 1 "timer_delete" (arg_int ∷ [])
    ∷ row 0x108 2 "clock_settime" (arg_int ∷ arg_struct_ptr ∷ [])
    ∷ row 0x109 2 "clock_gettime" (arg_int ∷ arg_struct_ptr ∷ [])
    ∷ row 0x10a 2 "clock_getres" (arg_int ∷ arg_struct_ptr ∷ [])
    ∷ row 0x10b 4 "clock_nanosleep" (arg_int ∷ arg_flags ∷ arg_struct_ptr ∷ arg_struct_ptr ∷ [])
    ∷ row 0x10c 3 "statfs64" (arg_str ∷ arg_int ∷ arg_struct_ptr ∷ [])
    ∷ row 0x10d 3 "fstatfs64" (arg_fd ∷ arg_int ∷ arg_struct_ptr ∷ [])
    ∷ row 0x10e 3 "tgkill" (arg_pid ∷ arg_pid ∷ arg_signal ∷ [])
    ∷ row 0x10f 2 "utimes" (arg_str ∷ arg_struct_ptr ∷ [])
    ∷ row 0x110 6 "fadvise64_64" (arg_fd ∷ arg_int ∷ arg_int ∷ arg_int ∷ arg_int ∷ arg_int ∷ [])
    ∷ row 0x115 4 "mq_open" (arg_str ∷ arg_flags ∷ arg_mode ∷ arg_struct_ptr ∷ [])
    ∷ row 0x116 1 "mq_unlink" (arg_str ∷ [])
    ∷ row 0x117 5 "mq_timedsend"
        (arg_int ∷ arg_input_bytes ∷ arg_uint ∷ arg_uint ∷ arg_struct_ptr ∷ [])
    ∷ row 0x118 5 "mq_timedreceive"
        (arg_int ∷ arg_output_bytes ∷ arg_uint ∷ arg_ptr ∷ arg_struct_ptr ∷ [])
    ∷ row 0x119 2 "mq_notify" (arg_int ∷ arg_struct_ptr ∷ [])
    ∷ row 0x11a 3 "mq_getsetattr" (arg_int ∷ arg_struct_ptr ∷ arg_struct_ptr ∷ [])
    ∷ row 0x11b 4 "kexec_load" (arg_ulong ∷ arg_ulong ∷ arg_struct_ptr ∷ arg_flags ∷ [])
    ∷ row 0x11c 5 "waitid" (arg_int ∷ arg_pid ∷ arg_struct_ptr ∷ arg_int ∷ arg_struct_ptr ∷ [])
    ∷ row 0x11e 5 "add_key" (arg_str ∷ arg_str ∷ arg_ptr ∷ arg_size ∷ arg_int ∷ [])
    ∷ row 0x11f 4 "request_key" (arg_str ∷ arg_str ∷ arg_str ∷ arg_int ∷ [])
    ∷ row 0x120 5 "keyctl" (arg_int ∷ arg_ulong ∷ arg_ulong ∷ arg_ulong ∷ arg_ulong ∷ [])
    ∷ row 0x121 3 "ioprio_set" (arg_int ∷ arg_int ∷ arg_int ∷ [])
    ∷ row 0x122 2 "ioprio_get" (arg_int ∷ arg_int ∷ [])
    ∷ row 0x123 0 "inotify_init" (arg_none ∷ [])
    ∷ row 0x124 3 "inotify_add_watch" (arg_fd ∷ arg_str ∷ arg_flags ∷ [])
    ∷ row 0x125 2 "inotify_rm_watch" (arg_fd ∷ arg_int ∷ [])
    ∷ row 0x127 4 "openat" (arg_int ∷ arg_str ∷ arg_flags ∷ arg_mode ∷ [])
    ∷ row 0x128 3 "mkdirat" (arg_int ∷ arg_str ∷ arg_mode ∷ [])
    ∷ row 0x129 4 "mknodat" (arg_int ∷ arg_str ∷ arg_mode ∷ arg_uint ∷ [])
    ∷ row 0x12a 5 "fchownat" (arg_int ∷ arg_str ∷ arg_uid ∷ arg_gid ∷ arg_flags ∷ [])
    ∷ row 0x12b 3 "futimesat" (arg_uint ∷ arg_str ∷ arg_struct_ptr ∷ [])
    ∷ row 0x12c 4 "fstatat64" (arg_int ∷ arg_str ∷ arg_struct_ptr ∷ arg_flags ∷ [])
    ∷ row 0x12d 3 "unlinkat" (arg_int ∷ arg_str ∷ arg_flags ∷ [])
    ∷ row 0x12e 4 "renameat" (arg_int ∷ arg_str ∷ arg_int ∷ arg_str ∷ [])
    ∷ row 0x12f 5 "linkat" (arg_int ∷ arg_str ∷ arg_int ∷ arg_str ∷ arg_flags ∷ [])
    ∷ row 0x130 3 "symlinkat" (arg_str ∷ arg_int ∷ arg_str ∷ [])
    ∷ row 0x131 4 "readlinkat" (arg_int ∷ arg_str ∷ arg_output_bytes ∷ arg_int ∷ [])
    ∷ row 0x132 3 "fchmodat" (arg_int ∷ arg_str ∷ arg_mode ∷ [])
    ∷ row 0x133 3 "faccessat" (arg_int ∷ arg_str ∷ arg_int ∷ [])
    ∷ row 0x134 6 "pselect6" (arg_int ∷ arg_ptr ∷ arg_ptr ∷ arg_ptr ∷ arg_struct_ptr ∷ arg_ptr ∷ [])
    ∷ row 0x135 5 "ppoll" (arg_struct_ptr ∷ arg_uint ∷ arg_struct_ptr ∷ arg_signal ∷ arg_size ∷ [])
    ∷ row 0x136 1 "unshare" (arg_flags ∷ [])
    ∷ row 0x137 2 "set_robust_list" (arg_struct_ptr ∷ arg_size ∷ [])
    ∷ row 0x138 3 "get_robust_list" (arg_int ∷ arg_struct_ptr ∷ arg_size ∷ [])
    ∷ row 0x139 6 "splice" (arg_int ∷ arg_offset ∷ arg_int ∷ arg_offset ∷ arg_size ∷ arg_flags ∷ [])
    ∷ []
