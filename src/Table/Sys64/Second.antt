-- ===== src/Table/Sys64/Second.antt =====
-- include/strace_data.h: rows 0x7a to 0x104 of `SYS64_LIST`.
use make_strace.Common.{List, [], ◌∷◌}
use make_strace.Table.Types.{
  Row, row, arg_fd, arg_flags, arg_gid, arg_input_bytes, arg_int, arg_long, arg_mode, arg_none,
  arg_offset, arg_output_bytes, arg_pid, arg_ptr, arg_signal, arg_size, arg_str, arg_struct_ptr,
  arg_uid, arg_uint, arg_ulong,
}

unfoldable pub sys64_rows_2 : List Row
unfolding row
sys64_rows_2 =
    row 0x7a 1 "setfsuid" (arg_uid ∷ [])
    ∷ row 0x7b 1 "setfsgid" (arg_gid ∷ [])
    ∷ row 0x7c 1 "getsid" (arg_pid ∷ [])
    ∷ row 0x7d 2 "capget" (arg_int ∷ arg_int ∷ [])
    ∷ row 0x7e 2 "capset" (arg_int ∷ arg_int ∷ [])
    ∷ row 0x7f 2 "rt_sigpending" (arg_signal ∷ arg_size ∷ [])
    ∷ row 0x80 4 "rt_sigtimedwait" (arg_signal ∷ arg_ptr ∷ arg_struct_ptr ∷ arg_size ∷ [])
    ∷ row 0x81 3 "rt_sigqueueinfo" (arg_pid ∷ arg_signal ∷ arg_ptr ∷ [])
    ∷ row 0x82 2 "rt_sigsuspend" (arg_signal ∷ arg_size ∷ [])
    ∷ row 0x83 2 "sigaltstack" (arg_ptr ∷ arg_ptr ∷ [])
    ∷ row 0x84 2 "utime" (arg_str ∷ arg_struct_ptr ∷ [])
    ∷ row 0x85 3 "mknod" (arg_str ∷ arg_mode ∷ arg_int ∷ [])
    ∷ row 0x87 1 "personality" (arg_uint ∷ [])
    ∷ row 0x88 2 "ustat" (arg_int ∷ arg_struct_ptr ∷ [])
    ∷ row 0x89 2 "statfs" (arg_str ∷ arg_struct_ptr ∷ [])
    ∷ row 0x8a 2 "fstatfs" (arg_fd ∷ arg_struct_ptr ∷ [])
    ∷ row 0x8b 3 "sysfs" (arg_int ∷ arg_ulong ∷ arg_ulong ∷ [])
    ∷ row 0x8c 2 "getpriority" (arg_int ∷ arg_int ∷ [])
    ∷ row 0x8d 3 "setpriority" (arg_int ∷ arg_int ∷ arg_int ∷ [])
    ∷ row 0x8e 2 "sched_setparam" (arg_pid ∷ arg_struct_ptr ∷ [])
    ∷ row 0x8f 2 "sched_getparam" (arg_pid ∷ arg_struct_ptr ∷ [])
    ∷ row 0x90 3 "sched_setscheduler" (arg_pid ∷ arg_int ∷ arg_struct_ptr ∷ [])
    ∷ row 0x91 1 "sched_getscheduler" (arg_pid ∷ [])
    ∷ row 0x92 1 "sched_get_priority_max" (arg_int ∷ [])
    ∷ row 0x93 1 "sched_get_priority_min" (arg_int ∷ [])
    ∷ row 0x94 2 "sched_rr_get_interval" (arg_pid ∷ arg_struct_ptr ∷ [])
    ∷ row 0x95 2 "mlock" (arg_ulong ∷ arg_size ∷ [])
    ∷ row 0x96 2 "munlock" (arg_ulong ∷ arg_size ∷ [])
    ∷ row 0x97 1 "mlockall" (arg_flags ∷ [])
    ∷ row 0x98 0 "munlockall" (arg_none ∷ [])
    ∷ row 0x99 0 "vhangup" (arg_none ∷ [])
    ∷ row 0x9a 3 "modify_ldt" (arg_int ∷ arg_ptr ∷ arg_ulong ∷ [])
    ∷ row 0x9b 2 "pivot_root" (arg_str ∷ arg_str ∷ [])
    ∷ row 0x9d 5 "prctl" (arg_int ∷ arg_ulong ∷ arg_ulong ∷ arg_ulong ∷ arg_ulong ∷ [])
    ∷ row 0x9e 2 "arch_prctl" (arg_int ∷ arg_ulong ∷ [])
    ∷ row 0x9f 1 "adjtimex" (arg_struct_ptr ∷ [])
    ∷ row 0xa0 2 "setrlimit" (arg_uint ∷ arg_struct_ptr ∷ [])
    ∷ row 0xa1 1 "chroot" (arg_str ∷ [])
    ∷ row 0xa2 0 "sync" (arg_none ∷ [])
    ∷ row 0xa3 1 "acct" (arg_str ∷ [])
    ∷ row 0xa4 2 "settimeofday" (arg_struct_ptr ∷ arg_struct_ptr ∷ [])
    ∷ row 0xa5 5 "mount" (arg_str ∷ arg_str ∷ arg_str ∷ arg_flags ∷ arg_ptr ∷ [])
    ∷ row 0xa6 2 "umount" (arg_str ∷ arg_flags ∷ [])
    ∷ row 0xa7 2 "swapon" (arg_str ∷ arg_flags ∷ [])
    ∷ row 0xa8 1 "swapoff" (arg_str ∷ [])
    ∷ row 0xa9 4 "reboot" (arg_int ∷ arg_int ∷ arg_uint ∷ arg_ptr ∷ [])
    ∷ row 0xaa 2 "sethostname" (arg_str ∷ arg_int ∷ [])
    ∷ row 0xab 2 "setdomainname" (arg_str ∷ arg_int ∷ [])
    ∷ row 0xac 1 "iopl" (arg_uint ∷ [])
    ∷ row 0xad 3 "ioperm" (arg_ulong ∷ arg_ulong ∷ arg_int ∷ [])
    ∷ row 0xaf 3 "init_module" (arg_ptr ∷ arg_ulong ∷ arg_str ∷ [])
    ∷ row 0xb0 2 "delete_module" (arg_str ∷ arg_flags ∷ [])
    ∷ row 0xb3 4 "quotactl" (arg_uint ∷ arg_str ∷ arg_int ∷ arg_ptr ∷ [])
    ∷ row 0xba 0 "gettid" (arg_none ∷ [])
    ∷ row 0xbb 3 "readahead" (arg_fd ∷ arg_offset ∷ arg_size ∷ [])
    ∷ row 0xbc 5 "setxattr" (arg_str ∷ arg_str ∷ arg_ptr ∷ arg_size ∷ arg_flags ∷ [])
    ∷ row 0xbd 5 "lsetxattr" (arg_str ∷ arg_str ∷ arg_ptr ∷ arg_size ∷ arg_flags ∷ [])
    ∷ row 0xbe 5 "fsetxattr" (arg_fd ∷ arg_str ∷ arg_ptr ∷ arg_size ∷ arg_flags ∷ [])
    ∷ row 0xbf 4 "getxattr" (arg_str ∷ arg_str ∷ arg_ptr ∷ arg_size ∷ [])
    ∷ row 0xc0 4 "lgetxattr" (arg_str ∷ arg_str ∷ arg_ptr ∷ arg_size ∷ [])
    ∷ row 0xc1 4 "fgetxattr" (arg_fd ∷ arg_str ∷ arg_ptr ∷ arg_size ∷ [])
    ∷ row 0xc2 3 "listxattr" (arg_str ∷ arg_output_bytes ∷ arg_size ∷ [])
    ∷ row 0xc3 3 "llistxattr" (arg_str ∷ arg_output_bytes ∷ arg_size ∷ [])
    ∷ row 0xc4 3 "flistxattr" (arg_fd ∷ arg_output_bytes ∷ arg_size ∷ [])
    ∷ row 0xc5 2 "removexattr" (arg_str ∷ arg_str ∷ [])
    ∷ row 0xc6 2 "lremovexattr" (arg_str ∷ arg_str ∷ [])
    ∷ row 0xc7 2 "fremovexattr" (arg_fd ∷ arg_str ∷ [])
    ∷ row 0xc8 2 "tkill" (arg_pid ∷ arg_signal ∷ [])
    ∷ row 0xc9 1 "time" (arg_ptr ∷ [])
    ∷ row 0xca 6 "futex" (arg_ptr ∷ arg_int ∷ arg_int ∷ arg_struct_ptr ∷ arg_ptr ∷ arg_int ∷ [])
    ∷ row 0xcb 3 "sched_setaffinity" (arg_pid ∷ arg_uint ∷ arg_flags ∷ [])
    ∷ row 0xcc 3 "sched_getaffinity" (arg_pid ∷ arg_uint ∷ arg_flags ∷ [])
    ∷ row 0xce 2 "io_setup" (arg_int ∷ arg_ptr ∷ [])
    ∷ row 0xcf 1 "io_destroy" (arg_int ∷ [])
    ∷ row 0xd0 5 "io_getevents"
        (arg_int ∷ arg_long ∷ arg_long ∷ arg_struct_ptr ∷ arg_struct_ptr ∷ [])
    ∷ row 0xd1 3 "io_submit" (arg_int ∷ arg_long ∷ arg_struct_ptr ∷ [])
    ∷ row 0xd2 3 "io_cancel" (arg_int ∷ arg_struct_ptr ∷ arg_struct_ptr ∷ [])
    ∷ row 0xd5 1 "epoll_create" (arg_int ∷ [])
    ∷ row 0xd8 5 "remap_file_pages" (arg_ulong ∷ arg_ulong ∷ arg_ulong ∷ arg_ulong ∷ arg_flags ∷ [])
    ∷ row 0xd9 3 "getdents64" (arg_fd ∷ arg_struct_ptr ∷ arg_uint ∷ [])
    ∷ row 0xda 1 "set_tid_address" (arg_ptr ∷ [])
    ∷ row 0xdb 0 "restart_syscall" (arg_none ∷ [])
    ∷ row 0xdc 4 "semtimedop" (arg_int ∷ arg_struct_ptr ∷ arg_uint ∷ arg_struct_ptr ∷ [])
    ∷ row 0xdd 4 "fadvise64" (arg_fd ∷ arg_offset ∷ arg_size ∷ arg_int ∷ [])
    ∷ row 0xde 3 "timer_create" (arg_int ∷ arg_struct_ptr ∷ arg_ptr ∷ [])
    ∷ row 0xdf 4 "timer_settime" (arg_int ∷ arg_flags ∷ arg_struct_ptr ∷ arg_struct_ptr ∷ [])
    ∷ row 0xe0 2 "timer_gettime" (arg_int ∷ arg_struct_ptr ∷ [])
    ∷ row 0xe1 1 "timer_getoverrun" (arg_int ∷ [])
    ∷ row 0xe2 1 "timer_delete" (arg_int ∷ [])
    ∷ row 0xe3 2 "clock_settime" (arg_int ∷ arg_struct_ptr ∷ [])
    ∷ row 0xe4 2 "clock_gettime" (arg_int ∷ arg_struct_ptr ∷ [])
    ∷ row 0xe5 2 "clock_getres" (arg_int ∷ arg_struct_ptr ∷ [])
    ∷ row 0xe6 4 "clock_nanosleep" (arg_int ∷ arg_flags ∷ arg_struct_ptr ∷ arg_struct_ptr ∷ [])
    ∷ row 0xe7 1 "exit_group" (arg_int ∷ [])
    ∷ row 0xe8 4 "epoll_wait" (arg_int ∷ arg_struct_ptr ∷ arg_int ∷ arg_int ∷ [])
    ∷ row 0xe9 4 "epoll_ctl" (arg_int ∷ arg_int ∷ arg_fd ∷ arg_struct_ptr ∷ [])
    ∷ row 0xea 3 "tgkill" (arg_pid ∷ arg_pid ∷ arg_signal ∷ [])
    ∷ row 0xeb 2 "utimes" (arg_str ∷ arg_struct_ptr ∷ [])
    ∷ row 0xed 6 "mbind"
        (arg_ulong ∷ arg_ulong ∷ arg_ulong ∷ arg_flags ∷ arg_ulong ∷ arg_flags ∷ [])
    ∷ row 0xee 3 "set_mempolicy" (arg_int ∷ arg_flags ∷ arg_ulong ∷ [])
    ∷ row 0xef 5 "get_mempolicy" (arg_ptr ∷ arg_flags ∷ arg_ulong ∷ arg_ulong ∷ arg_flags ∷ [])
    ∷ row 0xf0 4 "mq_open" (arg_str ∷ arg_flags ∷ arg_mode ∷ arg_struct_ptr ∷ [])
    ∷ row 0xf1 1 "mq_unlink" (arg_str ∷ [])
    ∷ row 0xf2 5 "mq_timedsend"
        (arg_int ∷ arg_input_bytes ∷ arg_size ∷ arg_uint ∷ arg_struct_ptr ∷ [])
    ∷ row 0xf3 5 "mq_timedreceive"
        (arg_int ∷ arg_output_bytes ∷ arg_size ∷ arg_ptr ∷ arg_struct_ptr ∷ [])
    ∷ row 0xf4 2 "mq_notify" (arg_int ∷ arg_struct_ptr ∷ [])
    ∷ row 0xf5 3 "mq_getsetattr" (arg_int ∷ arg_struct_ptr ∷ arg_struct_ptr ∷ [])
    ∷ row 0xf6 4 "kexec_load" (arg_ulong ∷ arg_ulong ∷ arg_struct_ptr ∷ arg_flags ∷ [])
    ∷ row 0xf7 5 "waitid" (arg_int ∷ arg_pid ∷ arg_struct_ptr ∷ arg_int ∷ arg_struct_ptr ∷ [])
    ∷ row 0xf8 5 "add_key" (arg_str ∷ arg_str ∷ arg_ptr ∷ arg_size ∷ arg_int ∷ [])
    ∷ row 0xf9 4 "request_key" (arg_str ∷ arg_str ∷ arg_str ∷ arg_int ∷ [])
    ∷ row 0xfa 5 "keyctl" (arg_int ∷ arg_ulong ∷ arg_ulong ∷ arg_ulong ∷ arg_ulong ∷ [])
    ∷ row 0xfb 3 "ioprio_set" (arg_int ∷ arg_int ∷ arg_int ∷ [])
    ∷ row 0xfc 2 "ioprio_get" (arg_int ∷ arg_int ∷ [])
    ∷ row 0xfd 0 "inotify_init" (arg_none ∷ [])
    ∷ row 0xfe 3 "inotify_add_watch" (arg_fd ∷ arg_str ∷ arg_flags ∷ [])
    ∷ row 0xff 2 "inotify_rm_watch" (arg_fd ∷ arg_int ∷ [])
    ∷ row 0x100 4 "migrate_pages" (arg_pid ∷ arg_ulong ∷ arg_ptr ∷ arg_ptr ∷ [])
    ∷ row 0x101 4 "openat" (arg_int ∷ arg_str ∷ arg_flags ∷ arg_mode ∷ [])
    ∷ row 0x102 3 "mkdirat" (arg_int ∷ arg_str ∷ arg_mode ∷ [])
    ∷ row 0x103 4 "mknodat" (arg_int ∷ arg_str ∷ arg_mode ∷ arg_uint ∷ [])
    ∷ row 0x104 5 "fchownat" (arg_int ∷ arg_str ∷ arg_uid ∷ arg_gid ∷ arg_flags ∷ [])
    ∷ []
