-- ===== src/Table/Sys32/Third.antt =====
-- include/strace_data.h: rows 0x13a to 0x1d5 of `SYS32_LIST`.
use make_strace.Common.{List, [], ◌∷◌}
use make_strace.Table.Types.{
  Row, row, arg_fd, arg_flags, arg_input_bytes, arg_int, arg_long, arg_mode, arg_offset,
  arg_output_bytes, arg_pid, arg_ptr, arg_signal, arg_size, arg_str, arg_struct_ptr, arg_uint,
  arg_ulong, arg_vstr,
}

unfoldable pub sys32_rows_3 : List Row
unfolding row
sys32_rows_3 =
    row 0x13a 6 "sync_file_range"
      (arg_fd ∷ arg_uint ∷ arg_uint ∷ arg_uint ∷ arg_uint ∷ arg_flags ∷ [])
    ∷ row 0x13b 4 "tee" (arg_int ∷ arg_int ∷ arg_size ∷ arg_flags ∷ [])
    ∷ row 0x13c 4 "vmsplice" (arg_fd ∷ arg_struct_ptr ∷ arg_ulong ∷ arg_flags ∷ [])
    ∷ row 0x13e 3 "getcpu" (arg_ptr ∷ arg_ptr ∷ arg_struct_ptr ∷ [])
    ∷ row 0x13f 6 "epoll_pwait"
        (arg_int ∷ arg_struct_ptr ∷ arg_int ∷ arg_int ∷ arg_signal ∷ arg_size ∷ [])
    ∷ row 0x140 4 "utimensat" (arg_uint ∷ arg_str ∷ arg_struct_ptr ∷ arg_flags ∷ [])
    ∷ row 0x141 3 "signalfd" (arg_int ∷ arg_signal ∷ arg_size ∷ [])
    ∷ row 0x142 2 "timerfd_create" (arg_int ∷ arg_flags ∷ [])
    ∷ row 0x143 1 "eventfd" (arg_uint ∷ [])
    ∷ row 0x144 6 "fallocate" (arg_fd ∷ arg_int ∷ arg_uint ∷ arg_uint ∷ arg_uint ∷ arg_uint ∷ [])
    ∷ row 0x145 4 "timerfd_settime" (arg_int ∷ arg_flags ∷ arg_struct_ptr ∷ arg_struct_ptr ∷ [])
    ∷ row 0x146 2 "timerfd_gettime" (arg_int ∷ arg_struct_ptr ∷ [])
    ∷ row 0x147 4 "signalfd4" (arg_int ∷ arg_signal ∷ arg_size ∷ arg_flags ∷ [])
    ∷ row 0x148 2 "eventfd2" (arg_uint ∷ arg_flags ∷ [])
    ∷ row 0x149 1 "epoll_create1" (arg_flags ∷ [])
    ∷ row 0x14a 3 "dup3" (arg_fd ∷ arg_fd ∷ arg_flags ∷ [])
    ∷ row 0x14b 2 "pipe2" (arg_fd ∷ arg_flags ∷ [])
    ∷ row 0x14c 1 "inotify_init1" (arg_flags ∷ [])
    ∷ row 0x14d 5 "preadv" (arg_fd ∷ arg_struct_ptr ∷ arg_ulong ∷ arg_ulong ∷ arg_ulong ∷ [])
    ∷ row 0x14e 5 "pwritev" (arg_fd ∷ arg_struct_ptr ∷ arg_ulong ∷ arg_ulong ∷ arg_ulong ∷ [])
    ∷ row 0x14f 4 "rt_tgsigqueueinfo" (arg_pid ∷ arg_pid ∷ arg_signal ∷ arg_ptr ∷ [])
    ∷ row 0x150 5 "perf_event_open" (arg_struct_ptr ∷ arg_pid ∷ arg_int ∷ arg_int ∷ arg_flags ∷ [])
    ∷ row 0x151 5 "recvmmsg" (arg_fd ∷ arg_struct_ptr ∷ arg_uint ∷ arg_flags ∷ arg_struct_ptr ∷ [])
    ∷ row 0x152 2 "fanotify_init" (arg_flags ∷ arg_flags ∷ [])
    ∷ row 0x153 6 "fanotify_mark"
        (arg_int ∷ arg_flags ∷ arg_flags ∷ arg_flags ∷ arg_int ∷ arg_str ∷ [])
    ∷ row 0x154 4 "prlimit64" (arg_pid ∷ arg_uint ∷ arg_struct_ptr ∷ arg_struct_ptr ∷ [])
    ∷ row 0x155 5 "name_to_handle_at"
        (arg_int ∷ arg_str ∷ arg_struct_ptr ∷ arg_ptr ∷ arg_flags ∷ [])
    ∷ row 0x156 3 "open_by_handle_at" (arg_int ∷ arg_struct_ptr ∷ arg_flags ∷ [])
    ∷ row 0x157 2 "clock_adjtime" (arg_int ∷ arg_struct_ptr ∷ [])
    ∷ row 0x158 1 "syncfs" (arg_fd ∷ [])
    ∷ row 0x159 4 "sendmmsg" (arg_fd ∷ arg_struct_ptr ∷ arg_uint ∷ arg_flags ∷ [])
    ∷ row 0x15a 2 "setns" (arg_fd ∷ arg_flags ∷ [])
    ∷ row 0x15b 6 "process_vm_readv"
        (arg_pid ∷ arg_struct_ptr ∷ arg_ulong ∷ arg_struct_ptr ∷ arg_ulong ∷ arg_flags ∷ [])
    ∷ row 0x15c 6 "process_vm_writev"
        (arg_pid ∷ arg_struct_ptr ∷ arg_ulong ∷ arg_struct_ptr ∷ arg_ulong ∷ arg_flags ∷ [])
    ∷ row 0x15d 5 "kcmp" (arg_pid ∷ arg_pid ∷ arg_int ∷ arg_ulong ∷ arg_ulong ∷ [])
    ∷ row 0x15e 3 "finit_module" (arg_fd ∷ arg_str ∷ arg_flags ∷ [])
    ∷ row 0x15f 3 "sched_setattr" (arg_pid ∷ arg_struct_ptr ∷ arg_flags ∷ [])
    ∷ row 0x160 4 "sched_getattr" (arg_pid ∷ arg_struct_ptr ∷ arg_uint ∷ arg_flags ∷ [])
    ∷ row 0x161 5 "renameat2" (arg_int ∷ arg_str ∷ arg_int ∷ arg_str ∷ arg_flags ∷ [])
    ∷ row 0x162 3 "seccomp" (arg_uint ∷ arg_flags ∷ arg_ptr ∷ [])
    ∷ row 0x163 3 "getrandom" (arg_output_bytes ∷ arg_size ∷ arg_flags ∷ [])
    ∷ row 0x164 2 "memfd_create" (arg_str ∷ arg_flags ∷ [])
    ∷ row 0x165 3 "bpf" (arg_int ∷ arg_ptr ∷ arg_uint ∷ [])
    ∷ row 0x166 5 "execveat" (arg_fd ∷ arg_str ∷ arg_vstr ∷ arg_ptr ∷ arg_flags ∷ [])
    ∷ row 0x167 3 "socket" (arg_int ∷ arg_int ∷ arg_int ∷ [])
    ∷ row 0x168 4 "socketpair" (arg_int ∷ arg_int ∷ arg_int ∷ arg_ptr ∷ [])
    ∷ row 0x169 3 "bind" (arg_fd ∷ arg_struct_ptr ∷ arg_int ∷ [])
    ∷ row 0x16a 3 "connect" (arg_fd ∷ arg_struct_ptr ∷ arg_int ∷ [])
    ∷ row 0x16b 2 "listen" (arg_fd ∷ arg_int ∷ [])
    ∷ row 0x16c 4 "accept4" (arg_fd ∷ arg_struct_ptr ∷ arg_ptr ∷ arg_flags ∷ [])
    ∷ row 0x16d 5 "getsockopt" (arg_fd ∷ arg_int ∷ arg_int ∷ arg_str ∷ arg_ptr ∷ [])
    ∷ row 0x16e 5 "setsockopt" (arg_fd ∷ arg_int ∷ arg_int ∷ arg_str ∷ arg_int ∷ [])
    ∷ row 0x16f 3 "getsockname" (arg_fd ∷ arg_struct_ptr ∷ arg_ptr ∷ [])
    ∷ row 0x170 3 "getpeername" (arg_fd ∷ arg_struct_ptr ∷ arg_ptr ∷ [])
    ∷ row 0x171 6 "sendto" (arg_fd ∷ arg_ptr ∷ arg_size ∷ arg_flags ∷ arg_struct_ptr ∷ arg_int ∷ [])
    ∷ row 0x172 3 "sendmsg" (arg_fd ∷ arg_struct_ptr ∷ arg_flags ∷ [])
    ∷ row 0x173 6 "recvfrom"
        (arg_fd ∷ arg_ptr ∷ arg_size ∷ arg_flags ∷ arg_struct_ptr ∷ arg_ptr ∷ [])
    ∷ row 0x174 3 "recvmsg" (arg_fd ∷ arg_struct_ptr ∷ arg_flags ∷ [])
    ∷ row 0x175 2 "shutdown" (arg_fd ∷ arg_int ∷ [])
    ∷ row 0x176 1 "userfaultfd" (arg_flags ∷ [])
    ∷ row 0x177 3 "membarrier" (arg_int ∷ arg_flags ∷ arg_int ∷ [])
    ∷ row 0x178 3 "mlock2" (arg_ulong ∷ arg_size ∷ arg_flags ∷ [])
    ∷ row 0x179 6 "copy_file_range"
        (arg_int ∷ arg_offset ∷ arg_int ∷ arg_offset ∷ arg_size ∷ arg_flags ∷ [])
    ∷ row 0x17a 6 "preadv2"
        (arg_fd ∷ arg_struct_ptr ∷ arg_ulong ∷ arg_ulong ∷ arg_ulong ∷ arg_flags ∷ [])
    ∷ row 0x17b 6 "pwritev2"
        (arg_fd ∷ arg_struct_ptr ∷ arg_ulong ∷ arg_ulong ∷ arg_ulong ∷ arg_flags ∷ [])
    ∷ row 0x17f 5 "statx" (arg_int ∷ arg_str ∷ arg_flags ∷ arg_flags ∷ arg_struct_ptr ∷ [])
    ∷ row 0x180 2 "arch_prctl" (arg_int ∷ arg_ulong ∷ [])
    ∷ row 0x181 6 "io_pgetevents"
        (arg_int ∷ arg_long ∷ arg_long ∷ arg_struct_ptr ∷ arg_struct_ptr ∷ arg_struct_ptr ∷ [])
    ∷ row 0x182 4 "rseq" (arg_struct_ptr ∷ arg_int ∷ arg_flags ∷ arg_signal ∷ [])
    ∷ row 0x189 3 "semget" (arg_int ∷ arg_int ∷ arg_flags ∷ [])
    ∷ row 0x18a 4 "semctl" (arg_int ∷ arg_int ∷ arg_int ∷ arg_ulong ∷ [])
    ∷ row 0x18b 3 "shmget" (arg_int ∷ arg_size ∷ arg_flags ∷ [])
    ∷ row 0x18c 3 "shmctl" (arg_int ∷ arg_int ∷ arg_struct_ptr ∷ [])
    ∷ row 0x18d 3 "shmat" (arg_int ∷ arg_str ∷ arg_flags ∷ [])
    ∷ row 0x18e 1 "shmdt" (arg_str ∷ [])
    ∷ row 0x18f 2 "msgget" (arg_int ∷ arg_flags ∷ [])
    ∷ row 0x190 4 "msgsnd" (arg_int ∷ arg_struct_ptr ∷ arg_int ∷ arg_flags ∷ [])
    ∷ row 0x191 5 "msgrcv" (arg_int ∷ arg_struct_ptr ∷ arg_int ∷ arg_long ∷ arg_flags ∷ [])
    ∷ row 0x192 3 "msgctl" (arg_int ∷ arg_int ∷ arg_struct_ptr ∷ [])
    ∷ row 0x193 2 "clock_gettime" (arg_int ∷ arg_struct_ptr ∷ [])
    ∷ row 0x194 2 "clock_settime" (arg_int ∷ arg_struct_ptr ∷ [])
    ∷ row 0x195 2 "clock_adjtime" (arg_int ∷ arg_struct_ptr ∷ [])
    ∷ row 0x196 2 "clock_getres" (arg_int ∷ arg_struct_ptr ∷ [])
    ∷ row 0x197 4 "clock_nanosleep" (arg_int ∷ arg_flags ∷ arg_struct_ptr ∷ arg_struct_ptr ∷ [])
    ∷ row 0x198 2 "timer_gettime" (arg_int ∷ arg_struct_ptr ∷ [])
    ∷ row 0x199 4 "timer_settime" (arg_int ∷ arg_flags ∷ arg_struct_ptr ∷ arg_struct_ptr ∷ [])
    ∷ row 0x19a 2 "timerfd_gettime" (arg_int ∷ arg_struct_ptr ∷ [])
    ∷ row 0x19b 4 "timerfd_settime" (arg_int ∷ arg_flags ∷ arg_struct_ptr ∷ arg_struct_ptr ∷ [])
    ∷ row 0x19c 4 "utimensat" (arg_int ∷ arg_str ∷ arg_struct_ptr ∷ arg_flags ∷ [])
    ∷ row 0x19d 6 "pselect6" (arg_int ∷ arg_ptr ∷ arg_ptr ∷ arg_ptr ∷ arg_struct_ptr ∷ arg_ptr ∷ [])
    ∷ row 0x19e 5 "ppoll" (arg_struct_ptr ∷ arg_uint ∷ arg_struct_ptr ∷ arg_signal ∷ arg_size ∷ [])
    ∷ row 0x1a0 6 "io_pgetevents"
        (arg_int ∷ arg_long ∷ arg_long ∷ arg_struct_ptr ∷ arg_struct_ptr ∷ arg_struct_ptr ∷ [])
    ∷ row 0x1a1 5 "recvmmsg" (arg_fd ∷ arg_struct_ptr ∷ arg_uint ∷ arg_flags ∷ arg_struct_ptr ∷ [])
    ∷ row 0x1a2 5 "mq_timedsend"
        (arg_int ∷ arg_input_bytes ∷ arg_size ∷ arg_uint ∷ arg_struct_ptr ∷ [])
    ∷ row 0x1a3 5 "mq_timedreceive"
        (arg_int ∷ arg_output_bytes ∷ arg_size ∷ arg_ptr ∷ arg_struct_ptr ∷ [])
    ∷ row 0x1a4 4 "semtimedop" (arg_int ∷ arg_struct_ptr ∷ arg_uint ∷ arg_struct_ptr ∷ [])
    ∷ row 0x1a5 4 "rt_sigtimedwait" (arg_signal ∷ arg_ptr ∷ arg_struct_ptr ∷ arg_size ∷ [])
    ∷ row 0x1a6 6 "futex" (arg_ptr ∷ arg_int ∷ arg_int ∷ arg_struct_ptr ∷ arg_ptr ∷ arg_int ∷ [])
    ∷ row 0x1a7 2 "sched_rr_get_interval" (arg_pid ∷ arg_struct_ptr ∷ [])
    ∷ row 0x1a8 4 "pidfd_send_signal" (arg_int ∷ arg_signal ∷ arg_ptr ∷ arg_flags ∷ [])
    ∷ row 0x1a9 2 "io_uring_setup" (arg_int ∷ arg_struct_ptr ∷ [])
    ∷ row 0x1aa 6 "io_uring_enter" (arg_fd ∷ arg_int ∷ arg_int ∷ arg_flags ∷ arg_ptr ∷ arg_int ∷ [])
    ∷ row 0x1ab 4 "io_uring_register" (arg_fd ∷ arg_uint ∷ arg_ptr ∷ arg_uint ∷ [])
    ∷ row 0x1ac 3 "open_tree" (arg_int ∷ arg_str ∷ arg_flags ∷ [])
    ∷ row 0x1ad 5 "move_mount" (arg_int ∷ arg_str ∷ arg_int ∷ arg_str ∷ arg_flags ∷ [])
    ∷ row 0x1ae 2 "fsopen" (arg_str ∷ arg_flags ∷ [])
    ∷ row 0x1af 5 "fsconfig" (arg_fd ∷ arg_uint ∷ arg_str ∷ arg_ptr ∷ arg_int ∷ [])
    ∷ row 0x1b0 3 "fsmount" (arg_int ∷ arg_flags ∷ arg_flags ∷ [])
    ∷ row 0x1b1 3 "fspick" (arg_int ∷ arg_str ∷ arg_flags ∷ [])
    ∷ row 0x1b2 2 "pidfd_open" (arg_pid ∷ arg_flags ∷ [])
    ∷ row 0x1b3 2 "clone3" (arg_struct_ptr ∷ arg_size ∷ [])
    ∷ row 0x1b4 3 "close_range" (arg_fd ∷ arg_uint ∷ arg_flags ∷ [])
    ∷ row 0x1b5 4 "openat2" (arg_int ∷ arg_str ∷ arg_struct_ptr ∷ arg_size ∷ [])
    ∷ row 0x1b6 3 "pidfd_getfd" (arg_int ∷ arg_fd ∷ arg_flags ∷ [])
    ∷ row 0x1b7 4 "faccessat2" (arg_int ∷ arg_str ∷ arg_int ∷ arg_flags ∷ [])
    ∷ row 0x1b8 5 "process_madvise" (arg_int ∷ arg_struct_ptr ∷ arg_size ∷ arg_int ∷ arg_flags ∷ [])
    ∷ row 0x1b9 6 "epoll_pwait2"
        (arg_int ∷ arg_struct_ptr ∷ arg_int ∷ arg_struct_ptr ∷ arg_signal ∷ arg_size ∷ [])
    ∷ row 0x1ba 5 "mount_setattr" (arg_int ∷ arg_str ∷ arg_flags ∷ arg_struct_ptr ∷ arg_size ∷ [])
    ∷ row 0x1bb 4 "quotactl_fd" (arg_fd ∷ arg_uint ∷ arg_int ∷ arg_ptr ∷ [])
    ∷ row 0x1bc 3 "landlock_create_ruleset" (arg_struct_ptr ∷ arg_size ∷ arg_flags ∷ [])
    ∷ row 0x1bd 4 "landlock_add_rule" (arg_int ∷ arg_int ∷ arg_ptr ∷ arg_flags ∷ [])
    ∷ row 0x1be 2 "landlock_restrict_self" (arg_int ∷ arg_flags ∷ [])
    ∷ row 0x1bf 1 "memfd_secret" (arg_flags ∷ [])
    ∷ row 0x1c0 2 "process_mrelease" (arg_int ∷ arg_flags ∷ [])
    ∷ row 0x1c1 5 "futex_waitv"
        (arg_struct_ptr ∷ arg_uint ∷ arg_flags ∷ arg_struct_ptr ∷ arg_int ∷ [])
    ∷ row 0x1c3 4 "cachestat" (arg_fd ∷ arg_struct_ptr ∷ arg_struct_ptr ∷ arg_flags ∷ [])
    ∷ row 0x1c4 4 "fchmodat2" (arg_int ∷ arg_str ∷ arg_mode ∷ arg_flags ∷ [])
    ∷ row 0x1c6 4 "futex_wake" (arg_ptr ∷ arg_flags ∷ arg_int ∷ arg_flags ∷ [])
    ∷ row 0x1c7 6 "futex_wait"
        (arg_ptr ∷ arg_ulong ∷ arg_flags ∷ arg_flags ∷ arg_struct_ptr ∷ arg_int ∷ [])
    ∷ row 0x1c8 4 "futex_requeue" (arg_struct_ptr ∷ arg_flags ∷ arg_int ∷ arg_int ∷ [])
    ∷ row 0x1c9 4 "statmount" (arg_struct_ptr ∷ arg_struct_ptr ∷ arg_size ∷ arg_flags ∷ [])
    ∷ row 0x1ca 4 "listmount" (arg_struct_ptr ∷ arg_ptr ∷ arg_int ∷ arg_flags ∷ [])
    ∷ row 0x1cb 4 "lsm_get_self_attr" (arg_uint ∷ arg_struct_ptr ∷ arg_ptr ∷ arg_flags ∷ [])
    ∷ row 0x1cc 4 "lsm_set_self_attr" (arg_uint ∷ arg_struct_ptr ∷ arg_int ∷ arg_flags ∷ [])
    ∷ row 0x1cd 3 "lsm_list_modules" (arg_ptr ∷ arg_ptr ∷ arg_flags ∷ [])
    ∷ row 0x1cf 6 "setxattrat"
        (arg_int ∷ arg_str ∷ arg_flags ∷ arg_str ∷ arg_struct_ptr ∷ arg_size ∷ [])
    ∷ row 0x1d0 6 "getxattrat"
        (arg_int ∷ arg_str ∷ arg_flags ∷ arg_str ∷ arg_struct_ptr ∷ arg_size ∷ [])
    ∷ row 0x1d1 5 "listxattrat" (arg_int ∷ arg_str ∷ arg_flags ∷ arg_output_bytes ∷ arg_size ∷ [])
    ∷ row 0x1d2 4 "removexattrat" (arg_int ∷ arg_str ∷ arg_flags ∷ arg_str ∷ [])
    ∷ row 0x1d3 5 "open_tree_attr" (arg_int ∷ arg_str ∷ arg_flags ∷ arg_struct_ptr ∷ arg_size ∷ [])
    ∷ row 0x1d4 5 "file_getattr" (arg_int ∷ arg_str ∷ arg_struct_ptr ∷ arg_size ∷ arg_flags ∷ [])
    ∷ row 0x1d5 5 "file_setattr" (arg_int ∷ arg_str ∷ arg_struct_ptr ∷ arg_size ∷ arg_flags ∷ [])
    ∷ []
