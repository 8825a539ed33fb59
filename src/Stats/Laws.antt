-- ===== src/Stats/Laws.antt =====
-- The differences that are logged.
use vqro.Base.{
  ℕ, List, [], ◌∷◌, All, none, some, true, false, ◌==◌, ◌≡◌, refl, ap, ◌∙◌, Bool, if◌then◌else◌,
}
use vqro.Stats.{
  ProcStat, new_proc_stat, Proc, read_proc_stat, Usage, report, delta, log_resource_usage,
  log_delta, first_usage, SelfStat, SystemStat,
}

-- A reading that finds all it asks for.
pub record IsComplete (proc : Proc) : Type 0 where
  pub self : (f : SelfStat) × (proc.self_stat ≡ some f)
  pub system : (f : SystemStat) × (proc.system_stat ≡ some f)
  pub fds : (n : ℕ) × (proc.fd_entries ≡ some n)

module _ (page_size : ℕ) where
  -- What a complete reading finds, whatever was there before.
  abbrev pub sample : Proc → ProcStat
  sample proc = (read_proc_stat page_size proc new_proc_stat).0

  read-sample :
      (proc : Proc) (s : ProcStat)
      → IsComplete proc
      → read_proc_stat page_size proc s ≡ (sample proc, true)
  unfolding read_proc_stat new_proc_stat
  read-sample proc s c = rw (c.self.1, c.system.1, c.fds.1) refl

  abbrev pub Fails : Proc → Type 0
  Fails proc = (s : ProcStat) → (read_proc_stat page_size proc s).1 ≡ false

  -- The calls one after the other, one for each reading.
  abbrev pub usage_after : List Proc → Usage → Usage
  usage_after [] u = u
  usage_after (proc ∷ procs) u = usage_after procs (log_resource_usage page_size proc u).0

  -- A failed reading keeps the last good one.
  abbrev Keeps : Usage → Usage → Type 0
  Keeps u v = (v.first_time ≡ false) × (v.last ≡ u.last)

  later_usage :
      (u : Usage) (proc : Proc)
      → u.first_time ≡ false
      → log_resource_usage page_size proc u ≡ log_delta u (read_proc_stat page_size proc u.current)
  unfolding log_resource_usage
  later_usage u proc started =
      ap
        (λ b.
          if b
          then first_usage u (read_proc_stat page_size proc u.last).0
          else log_delta u (read_proc_stat page_size proc u.current))
        started

  log_delta-Keeps :
      (u : Usage) (r : ProcStat × Bool)
      → u.first_time ≡ false
      → r.1 ≡ false
      → Keeps u (log_delta u r).0
  log_delta-Keeps u (s, false) started e = (started, refl)
  log_delta-Keeps u (s, true) started e = cc

  failed-Keeps :
      (u : Usage) (proc : Proc)
      → u.first_time ≡ false
      → Fails proc
      → Keeps u (log_resource_usage page_size proc u).0
  failed-Keeps u proc started fails =
      rw (later_usage u proc started)
        (log_delta-Keeps u (read_proc_stat page_size proc u.current) started (fails u.current))

  all_failed-Keeps :
      (procs : List Proc) (u : Usage)
      → u.first_time ≡ false
      → All Fails procs
      → Keeps u (usage_after procs u)
  all_failed-Keeps [] u started fails = (started, refl)
  all_failed-Keeps (proc ∷ procs) u started fails =
      let (on, same) = failed-Keeps u proc started fails.0 in
      let (on', same') =
        all_failed-Keeps procs (log_resource_usage page_size proc u).0 on fails.1 in
      (on', same' ∙ same)

  complete_usage :
      (u : Usage) (proc : Proc)
      → u.first_time ≡ false
      → IsComplete proc
      → log_resource_usage page_size proc u ≡ log_delta u (sample proc, true)
  complete_usage u proc started c =
      later_usage u proc started ∙ ap (log_delta u) (read-sample proc u.current c)

  -- After the first call: where one reading is complete, any number of readings then fail, and the
  -- next one is complete, what is logged there are the differences between these two complete
  -- readings, modulo 2 ^ 64, and the values of the second one; and nothing is logged where the
  -- totals are equal. Readings that failed in between, and what they have stored, have no part in it.
  pub log_resource_usage-delta :
      (u : Usage) (proc after : Proc) (failing : List Proc)
      → u.first_time ≡ false
      → IsComplete proc
      → IsComplete after
      → All Fails failing
      → (log_resource_usage page_size after
          (usage_after failing (log_resource_usage page_size proc u).0)).1
        ≡ (if delta (sample after).total_ticks (sample proc).total_ticks == 0
            then none
            else some (report (sample after) (sample proc)))
  log_resource_usage-delta u proc after failing started c d fails =
      let first = complete_usage u proc started c in
      let v : Usage = (log_resource_usage page_size proc u).0 in
      let begun : v.first_time ≡ false = ap (λ r. r.0.first_time) first ∙ started in
      let (on, same) = all_failed-Keeps failing v begun fails in
      let kept : (usage_after failing v).last ≡ sample proc = same ∙ ap (λ r. r.0.last) first in
      ap (λ r. r.1) (complete_usage (usage_after failing v) after on d)
      ∙ ap
          (λ old.
            if delta (sample after).total_ticks old.total_ticks == 0
            then none
            else some (report (sample after) old))
          kept
