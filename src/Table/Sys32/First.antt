-- ===== src/Table/Sys32/First.antt =====
-- include/strace_data.h: rows 0x0 to 0x9d of `SYS32_LIST`.
use make_strace.Common.{List, [], ◌∷◌}
use make_strace.Table.Types.{
  Row, row, arg_fd, arg_flags, arg_gid, arg_input_bytes, arg_int, arg_long, arg_mode, arg_none,
  arg_offset, arg_output_bytes, arg_pid, arg_ptr, arg_signal, arg_size, arg_str, arg_struct_ptr,
  arg_uid, arg_uint, arg_ulong, arg_vstr,
}

unfoldable pub sys32_rows_1 : List Row
unfolding row
sys32_rows_1 =
    row 0x0 0 "restart_syscall" (arg_none ∷ [])
    ∷ row 0x1 1 "exit" (arg_int ∷ [])
    ∷ row 0x2 0 "fork" (arg_none ∷ [])
    ∷ row 0x3 3 "read" (arg_fd ∷ arg_output_bytes ∷ arg_size ∷ [])
    ∷ row 0x4 3 "write" (arg_fd ∷ arg_input_bytes ∷ arg_size ∷ [])
    ∷ row 0x5 3 "open" (arg_str ∷ arg_flags ∷ arg_mode ∷ [])
    ∷ row 0x6 1 "close" (arg_fd ∷ [])
    ∷ row 0x7 3 "waitpid" (arg_pid ∷ arg_ptr ∷ arg_int ∷ [])
    ∷ row 0x8 2 "creat" (arg_str ∷ arg_mode ∷ [])
    ∷ row 0x9 2 "link" (arg_str ∷ arg_str ∷ [])
    ∷ row 0xa 1 "unlink" (arg_str ∷ [])
    ∷ row 0xb 3 "execve" (arg_str ∷ arg_vstr ∷ arg_ptr ∷ [])
    ∷ row 0xc 1 "chdir" (arg_str ∷ [])
    ∷ row 0xd 1 "time" (arg_ptr ∷ [])
    ∷ row 0xe 3 "mknod" (arg_str ∷ arg_mode ∷ arg_int ∷ [])
    ∷ row 0xf 2 "chmod" (arg_str ∷ arg_mode ∷ [])
    ∷ row 0x10 3 "lchown16" (arg_str ∷ arg_uid ∷ arg_gid ∷ [])
    ∷ row 0x12 2 "stat" (arg_str ∷ arg_struct_ptr ∷ [])
    ∷ row 0x13 3 "lseek" (arg_fd ∷ arg_offset ∷ arg_uint ∷ [])
    ∷ row 0x14 0 "getpid" (arg_none ∷ [])
    ∷ row 0x15 5 "mount" (arg_str ∷ arg_str ∷ arg_str ∷ arg_flags ∷ arg_ptr ∷ [])
    ∷ row 0x16 1 "oldumount" (arg_str ∷ [])
    ∷ row 0x17 1 "setuid16" (arg_uid ∷ [])
    ∷ row 0x18 0 "getuid16" (arg_none ∷ [])
    ∷ row 0x19 1 "stime" (arg_ptr ∷ [])
    ∷ row 0x1a 4 "ptrace" (arg_long ∷ arg_long ∷ arg_ulong ∷ arg_ulong ∷ [])
    ∷ row 0x1b 1 "alarm" (arg_uint ∷ [])
    ∷ row 0x1c 2 "fstat" (arg_fd ∷ arg_struct_ptr ∷ [])
    ∷ row 0x1d 0 "pause" (arg_none ∷ [])
    ∷ row 0x1e 2 "utime" (arg_str ∷ arg_struct_ptr ∷ [])
    ∷ row 0x21 2 "access" (arg_str ∷ arg_int ∷ [])
    ∷ row 0x22 1 "nice" (arg_int ∷ [])
    ∷ row 0x24 0 "sync" (arg_none ∷ [])
    ∷ row 0x25 2 "kill" (arg_pid ∷ arg_signal ∷ [])
    ∷ row 0x26 2 "rename" (arg_str ∷ arg_str ∷ [])
    ∷ row 0x27 2 "mkdir" (arg_str ∷ arg_mode ∷ [])
    ∷ row 0x28 1 "rmdir" (arg_str ∷ [])
    ∷ row 0x29 1 "dup" (arg_fd ∷ [])
    ∷ row 0x2a 1 "pipe" (arg_fd ∷ [])
    ∷ row 0x2b 1 "times" (arg_struct_ptr ∷ [])
    ∷ row 0x2d 1 "brk" (arg_ulong ∷ [])
    ∷ row 0x2e 1 "setgid16" (arg_gid ∷ [])
    ∷ row 0x2f 0 "getgid16" (arg_none ∷ [])
    ∷ row 0x30 2 "signal" (arg_signal ∷ arg_signal ∷ [])
    ∷ row 0x31 0 "geteuid16" (arg_none ∷ [])
    ∷ row 0x32 0 "getegid16" (arg_none ∷ [])
    ∷ row 0x33 1 "acct" (arg_str ∷ [])
    ∷ row 0x34 2 "umount" (arg_str ∷ arg_flags ∷ [])
    ∷ row 0x36 3 "ioctl" (arg_fd ∷ arg_uint ∷ arg_ulong ∷ [])
    ∷ row 0x37 3 "fcntl" (arg_fd ∷ arg_uint ∷ arg_ulong ∷ [])
    ∷ row 0x39 2 "setpgid" (arg_pid ∷ arg_pid ∷ [])
    ∷ row 0x3b 1 "olduname" (arg_struct_ptr ∷ [])
    ∷ row 0x3c 1 "umask" (arg_flags ∷ [])
    ∷ row 0x3d 1 "chroot" (arg_str ∷ [])
    ∷ row 0x3e 2 "ustat" (arg_int ∷ arg_struct_ptr ∷ [])
    ∷ row 0x3f 2 "dup2" (arg_fd ∷ arg_fd ∷ [])
    ∷ row 0x40 0 "getppid" (arg_none ∷ [])
    ∷ row 0x41 0 "getpgrp" (arg_none ∷ [])
    ∷ row 0x42 0 "setsid" (arg_none ∷ [])
    ∷ row 0x43 3 "sigaction" (arg_signal ∷ arg_struct_ptr ∷ arg_struct_ptr ∷ [])
    ∷ row 0x44 0 "sgetmask" (arg_none ∷ [])
    ∷ row 0x45 1 "ssetmask" (arg_flags ∷ [])
    ∷ row 0x46 2 "setreuid16" (arg_uid ∷ arg_uid ∷ [])
    ∷ row 0x47 2 "setregid16" (arg_gid ∷ arg_gid ∷ [])
    ∷ row 0x48 3 "sigsuspend" (arg_int ∷ arg_int ∷ arg_signal ∷ [])
    ∷ row 0x49 1 "sigpending" (arg_signal ∷ [])
    ∷ row 0x4a 2 "sethostname" (arg_str ∷ arg_int ∷ [])
    ∷ row 0x4b 2 "setrlimit" (arg_uint ∷ arg_struct_ptr ∷ [])
    ∷ row 0x4c 2 "getrlimit" (arg_uint ∷ arg_struct_ptr ∷ [])
    ∷ row 0x4d 2 "getrusage" (arg_int ∷ arg_struct_ptr ∷ [])
    ∷ row 0x4e 2 "gettimeofday" (arg_struct_ptr ∷ arg_struct_ptr ∷ [])
    ∷ row 0x4f 2 "settimeofday" (arg_struct_ptr ∷ arg_struct_ptr ∷ [])
    ∷ row 0x50 2 "getgroups16" (arg_int ∷ arg_gid ∷ [])
    ∷ row 0x51 2 "setgroups16" (arg_int ∷ arg_gid ∷ [])
    ∷ row 0x52 1 "select" (arg_struct_ptr ∷ [])
    ∷ row 0x53 2 "symlink" (arg_str ∷ arg_str ∷ [])
    ∷ row 0x54 2 "lstat" (arg_str ∷ arg_struct_ptr ∷ [])
    ∷ row 0x55 3 "readlink" (arg_str ∷ arg_output_bytes ∷ arg_int ∷ [])
    ∷ row 0x57 2 "swapon" (arg_str ∷ arg_flags ∷ [])
    ∷ row 0x58 4 "reboot" (arg_int ∷ arg_int ∷ arg_uint ∷ arg_ptr ∷ [])
    ∷ row 0x59 3 "readdir" (arg_fd ∷ arg_struct_ptr ∷ arg_uint ∷ [])
    ∷ row 0x5a 1 "mmap" (arg_struct_ptr ∷ [])
    ∷ row 0x5b 2 "munmap" (arg_ulong ∷ arg_size ∷ [])
    ∷ row 0x5c 2 "truncate" (arg_str ∷ arg_long ∷ [])
    ∷ row 0x5d 2 "ftruncate" (arg_fd ∷ arg_offset ∷ [])
    ∷ row 0x5e 2 "fchmod" (arg_fd ∷ arg_mode ∷ [])
    ∷ row 0x5f 3 "fchown16" (arg_fd ∷ arg_uid ∷ arg_gid ∷ [])
    ∷ row 0x60 2 "getpriority" (arg_int ∷ arg_int ∷ [])
    ∷ row 0x61 3 "setpriority" (arg_int ∷ arg_int ∷ arg_int ∷ [])
    ∷ row 0x63 2 "statfs" (arg_str ∷ arg_struct_ptr ∷ [])
    ∷ row 0x64 2 "fstatfs" (arg_fd ∷ arg_struct_ptr ∷ [])
    ∷ row 0x65 3 "ioperm" (arg_ulong ∷ arg_ulong ∷ arg_int ∷ [])
    ∷ row 0x66 2 "socketcall" (arg_int ∷ arg_ptr ∷ [])
    ∷ row 0x67 3 "syslog" (arg_int ∷ arg_str ∷ arg_int ∷ [])
    ∷ row 0x68 3 "setitimer" (arg_int ∷ arg_struct_ptr ∷ arg_struct_ptr ∷ [])
    ∷ row 0x69 2 "getitimer" (arg_int ∷ arg_struct_ptr ∷ [])
    ∷ row 0x6a 2 "newstat" (arg_str ∷ arg_struct_ptr ∷ [])
    ∷ row 0x6b 2 "newlstat" (arg_str ∷ arg_struct_ptr ∷ [])
    ∷ row 0x6c 2 "newfstat" (arg_fd ∷ arg_struct_ptr ∷ [])
    ∷ row 0x6d 1 "uname" (arg_struct_ptr ∷ [])
    ∷ row 0x6e 1 "iopl" (arg_uint ∷ [])
    ∷ row 0x6f 0 "vhangup" (arg_none ∷ [])
    ∷ row 0x71 1 "vm86old" (arg_struct_ptr ∷ [])
    ∷ row 0x72 4 "wait4" (arg_pid ∷ arg_ptr ∷ arg_int ∷ arg_struct_ptr ∷ [])
    ∷ row 0x73 1 "swapoff" (arg_str ∷ [])
    ∷ row 0x74 1 "sysinfo" (arg_struct_ptr ∷ [])
    ∷ row 0x75 6 "ipc" (arg_uint ∷ arg_int ∷ arg_ulong ∷ arg_ulong ∷ arg_ptr ∷ arg_long ∷ [])
    ∷ row 0x76 1 "fsync" (arg_fd ∷ [])
    ∷ row 0x77 0 "sigreturn" (arg_none ∷ [])
    ∷ row 0x78 5 "clone" (arg_flags ∷ arg_ulong ∷ arg_ptr ∷ arg_ulong ∷ arg_ptr ∷ [])
    ∷ row 0x79 2 "setdomainname" (arg_str ∷ arg_int ∷ [])
    ∷ row 0x7a 1 "newuname" (arg_struct_ptr ∷ [])
    ∷ row 0x7b 3 "modify_ldt" (arg_int ∷ arg_ptr ∷ arg_ulong ∷ [])
    ∷ row 0x7c 1 "adjtimex" (arg_struct_ptr ∷ [])
    ∷ row 0x7d 3 "mprotect" (arg_ulong ∷ arg_size ∷ arg_ulong ∷ [])
    ∷ row 0x7e 3 "sigprocmask" (arg_int ∷ arg_signal ∷ arg_signal ∷ [])
    ∷ row 0x80 3 "init_module" (arg_ptr ∷ arg_ulong ∷ arg_str ∷ [])
    ∷ row 0x81 2 "delete_module" (arg_str ∷ arg_flags ∷ [])
    ∷ row 0x83 4 "quotactl" (arg_uint ∷ arg_str ∷ arg_int ∷ arg_ptr ∷ [])
    ∷ row 0x84 1 "getpgid" (arg_pid ∷ [])
    ∷ row 0x85 1 "fchdir" (arg_fd ∷ [])
    ∷ row 0x87 3 "sysfs" (arg_int ∷ arg_ulong ∷ arg_ulong ∷ [])
    ∷ row 0x88 1 "personality" (arg_uint ∷ [])
    ∷ row 0x8a 1 "setfsuid16" (arg_uid ∷ [])
    ∷ row 0x8b 1 "setfsgid16" (arg_gid ∷ [])
    ∷ row 0x8c 5 "llseek" (arg_fd ∷ arg_ulong ∷ arg_ulong ∷ arg_offset ∷ arg_uint ∷ [])
    ∷ row 0x8d 3 "getdents" (arg_fd ∷ arg_struct_ptr ∷ arg_uint ∷ [])
    ∷ row 0x8e 5 "select" (arg_int ∷ arg_ptr ∷ arg_ptr ∷ arg_ptr ∷ arg_struct_ptr ∷ [])
    ∷ row 0x8f 2 "flock" (arg_fd ∷ arg_uint ∷ [])
    ∷ row 0x90 3 "msync" (arg_ulong ∷ arg_size ∷ arg_flags ∷ [])
    ∷ row 0x91 3 "readv" (arg_fd ∷ arg_struct_ptr ∷ arg_ulong ∷ [])
    ∷ row 0x92 3 "writev" (arg_fd ∷ arg_struct_ptr ∷ arg_ulong ∷ [])
    ∷ row 0x93 1 "getsid" (arg_pid ∷ [])
    ∷ row 0x94 1 "fdatasync" (arg_fd ∷ [])
    ∷ row 0x96 2 "mlock" (arg_ulong ∷ arg_size ∷ [])
    ∷ row 0x97 2 "munlock" (arg_ulong ∷ arg_size ∷ [])
    ∷ row 0x98 1 "mlockall" (arg_flags ∷ [])
    ∷ row 0x99 0 "munlockall" (arg_none ∷ [])
    ∷ row 0x9a 2 "sched_setparam" (arg_pid ∷ arg_struct_ptr ∷ [])
    ∷ row 0x9b 2 "sched_getparam" (arg_pid ∷ arg_struct_ptr ∷ [])
    ∷ row 0x9c 3 "sched_setscheduler" (arg_pid ∷ arg_int ∷ arg_struct_ptr ∷ [])
    ∷ row 0x9d 1 "sched_getscheduler" (arg_pid ∷ [])
    ∷ []
