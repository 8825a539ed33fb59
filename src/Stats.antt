-- ===== src/Stats.antt =====
-- The statistics of the process, of vqro/base/base.{h,cc}: ReadProcStat and LogResourceUsage. What
-- /proc holds is the interface Proc; the numbers of its files are all there where fscanf does not
-- report their end. unsigned long has 64 bits.
pub mod Laws
pub mod Clock
use vqro.Base.{
  ℕ, ◌+◌, ◌-◌, ◌%◌, ◌^◌, ◌==◌, ℤ, ◌*ℤ◌, pos, Bool, true, false, Option, none, some, if◌then◌else◌,
}

pub record ProcStat : Type 0 where
  pub user_ticks : ℕ
  pub sys_ticks : ℕ
  pub child_user_ticks : ℤ
  pub child_sys_ticks : ℤ
  pub vsize_bytes : ℕ
  pub rss_bytes : ℤ
  pub total_ticks : ℕ
  pub open_fd : ℕ

unfoldable pub new_proc_stat : ProcStat
new_proc_stat = record {
  user_ticks = 0;
  sys_ticks = 0;
  child_user_ticks = pos 0;
  child_sys_ticks = pos 0;
  vsize_bytes = 0;
  rss_bytes = pos 0;
  total_ticks = 0;
  open_fd = 0;
}

-- The numbers of /proc/self/stat that are asked for.
pub record SelfStat : Type 0 where
  pub user : ℕ
  pub sys : ℕ
  pub child_user : ℤ
  pub child_sys : ℤ
  pub vsize : ℕ
  pub rss_pages : ℤ

-- The four numbers of /proc/stat.
pub record SystemStat : Type 0 where
  pub user : ℕ
  pub nice : ℕ
  pub sys : ℕ
  pub idle : ℕ

-- What a reading finds; `none` where a file cannot be opened or is at its end. The entries of
-- /proc/self/fd are counted with `.` and `..`.
pub record Proc : Type 0 where
  pub self_stat : Option SelfStat
  pub system_stat : Option SystemStat
  pub fd_entries : Option ℕ

abbrev pub long_mod : ℕ
long_mod = 2 ^ 64

-- `page_size` is getpagesize().
unfoldable pub with_self : ℕ → SelfStat → ProcStat → ProcStat
with_self page_size f s = record s {
  user_ticks = f.user;
  sys_ticks = f.sys;
  child_user_ticks = f.child_user;
  child_sys_ticks = f.child_sys;
  vsize_bytes = f.vsize;
  rss_bytes = f.rss_pages *ℤ pos page_size;
}

unfoldable pub with_system : SystemStat → ProcStat → ProcStat
with_system f s = record s { total_ticks = (f.user + f.nice + f.sys + f.idle) % long_mod }

unfoldable pub count_fds : ℕ → ProcStat → ProcStat
count_fds entries s = record s { open_fd = (entries + long_mod - 2) % long_mod }

abbrev read_fds : Option ℕ → ProcStat → ProcStat × Bool
read_fds none s = (record s { open_fd = 0 }, false)
read_fds (some entries) s = (count_fds entries s, true)

abbrev read_system : Option SystemStat → Option ℕ → ProcStat → ProcStat × Bool
read_system none fds s = (s, false)
read_system (some f) fds s = read_fds fds (with_system f s)

abbrev read_self : ℕ → Option SelfStat → Option SystemStat → Option ℕ → ProcStat → ProcStat × Bool
read_self page_size none system fds s = (s, false)
read_self page_size (some f) system fds s = read_system system fds (with_self page_size f s)

-- ReadProcStat, and whether it has returned 0.
unfoldable pub read_proc_stat : ℕ → Proc → ProcStat → ProcStat × Bool
unfolding with_self with_system count_fds
read_proc_stat page_size proc s =
    read_self page_size proc.self_stat proc.system_stat proc.fd_entries s

-- The static variables of LogResourceUsage.
pub record Usage : Type 0 where
  pub first_time : Bool
  pub current : ProcStat
  pub last : ProcStat

-- What is logged: the utilisations are the first two differences over the third.
pub record Report : Type 0 where
  pub now : ProcStat
  pub user_delta : ℕ
  pub sys_delta : ℕ
  pub total_delta : ℕ

abbrev pub delta : ℕ → ℕ → ℕ
delta new old = (new + long_mod - old) % long_mod

abbrev pub report : ProcStat → ProcStat → Report
report new old = record {
  now = new;
  user_delta = delta new.user_ticks old.user_ticks;
  sys_delta = delta new.sys_ticks old.sys_ticks;
  total_delta = delta new.total_ticks old.total_ticks;
}

-- Nothing is logged where no tick has passed.
abbrev pub log_delta : Usage → ProcStat × Bool → Usage × Option Report
log_delta u (s, false) = (record u { current = s }, none)
log_delta u (s, true) = (
  record u { current = s; last = s },
  if delta s.total_ticks u.last.total_ticks == 0 then none else some (report s u.last),
)

-- The first call does not ask whether the reading has failed.
abbrev pub first_usage : Usage → ProcStat → Usage × Option Report
first_usage u s = (record u { first_time = false; last = s }, none)

unfoldable pub log_resource_usage : ℕ → Proc → Usage → Usage × Option Report
unfolding read_proc_stat
log_resource_usage page_size proc u =
    if u.first_time
    then first_usage u (read_proc_stat page_size proc u.last).0
    else log_delta u (read_proc_stat page_size proc u.current)
