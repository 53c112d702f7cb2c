-- ===== src/Run/Accounts.antt =====
-- The accounts of the event limit of src/sysbench.c, and what one thread's move does to them.
use sysbench.Prelude.{
  ℕ, ◌+◌, ◌≤◌, ◌<◌, ◌≡◌, ◌∙◌, ◌⊎◌, inl, inr, refl, sym, ap, Bool, true, false, Option, none, some,
  List, [], ◌∷◌, arith, get_elem?, set, length, length-set, tally, tally-set,
}
use Prim.Native.Nat.{min}
use sysbench.Timer.{Timespec}
use sysbench.Run.{
  Ring, Globals, Outcome, admitted, refused, queueing, asleep, null_pointer, enqueued, event_start,
}
use sysbench.Run.Workers.{
  Worker, sleeping, at_queue, executing, finished, crashed, System, go_on, admit,
}
use sysbench.Run.Admission.{is_pending, is_finished, passes, Same}

-- No error has been flagged and there is no time limit.
abbrev pub IsCalm : {D Q : Type 0} → Globals D Q → Type 0
IsCalm g = (g.error ≡ false) × (g.max_time_ns ≡ 0)

-- The accounts of the limit `m` among `n` threads, while `extra` threads have been let pass and not
-- yet gone on and `leaving` threads have been refused and not yet left.
pub record Accounts {D Q : Type 0} (m n extra leaving : ℕ) (s : System D Q) : Type 0 where
  pub limit : s.globals.max_events ≡ m
  pub threads : length s.workers ≡ n
  pub admissions : s.n_admitted + tally is_pending s.workers + extra ≤ min s.globals.nevents m
  pub refusals : s.globals.nevents ≤ m + tally is_finished s.workers + leaving
  pub starts : s.n_started + s.n_ended ≤ s.n_admitted
  pub exact :
      IsCalm s.globals → min s.globals.nevents m ≤ s.n_admitted + tally is_pending s.workers + extra
  pub all_start : IsCalm s.globals → s.n_admitted ≡ s.n_started + s.n_ended
  pub all_used :
      IsCalm s.globals → s.n_ended < tally is_finished s.workers + leaving → m ≤ s.globals.nevents

pub tally-bound :
    (f : Worker → ℕ) (ws : List Worker) → ((w : Worker) → f w ≤ 1) → tally f ws ≤ length ws
tally-bound f [] h = omega arith
tally-bound f (w ∷ ws) h = omega (arith, h w, tally-bound f ws h)

module _ {D Q : Type 0} {m n : ℕ} where
  -- A thread that was in state `old` moves to `new` and the counts of the system to what `t` has.
  pub move-Accounts :
      (s t : System D Q) (i : ℕ) (new : Worker) {old : Worker} {extra leaving : ℕ}
      → get_elem? s.workers i ≡ some old
      → Accounts m n extra leaving s
      → t.workers ≡ set s.workers i new
      → t.globals.max_events ≡ s.globals.max_events
      → t.globals.nevents ≡ s.globals.nevents
      → (IsCalm t.globals → IsCalm s.globals)
      → t.n_admitted + is_pending new ≤ s.n_admitted + is_pending old + extra
      → is_finished old + leaving ≤ is_finished new
      → t.n_started + t.n_ended ≤ t.n_admitted
      → (IsCalm t.globals → s.n_admitted + is_pending old + extra ≤ t.n_admitted + is_pending new)
      → (IsCalm t.globals → t.n_admitted ≡ t.n_started + t.n_ended)
      → (IsCalm t.globals → is_finished new + s.n_ended ≤ is_finished old + leaving + t.n_ended)
      → Accounts m n 0 0 t
  move-Accounts s t i new {old} e a ws me ne calm adm fin st ex al us =
      let pend = tally-set is_pending s.workers i new e in
      let done = tally-set is_finished s.workers i new e in
      record {
        limit = me ∙ a.limit;
        threads = ap length ws ∙ length-set s.workers i new ∙ a.threads;
        admissions = rw ws (omega (arith, pend, adm, ne, a.admissions));
        refusals = rw ws (omega (arith, done, fin, ne, a.refusals));
        starts = st;
        exact = λ c. rw ws (omega (arith, pend, ex c, ne, a.exact (calm c)));
        all_start = al;
        all_used = λ c used.
            let used' = rw ws at used in
            omega (arith, a.all_used (calm c) (omega (arith, done, us c, used')), ne);
      }

  pub pass-Accounts :
      (s : System D Q) (i : ℕ) (now : Timespec) (rc has_event : Bool) (o : Outcome) (extra : ℕ)
      {old : Worker}
      → get_elem? s.workers i ≡ some old
      → is_finished old ≡ 0
      → passes o ≡ 1
      → extra + is_pending old ≡ 1
      → Accounts m n extra 0 s
      → Accounts m n 0 0 (go_on s i now rc has_event o)
  unfolding go_on admit event_start
  pass-Accounts s i now rc has_event refused extra e f p x a = absurd (omega arith)
  pass-Accounts s i now true has_event admitted extra e f p x a =
      move-Accounts s (admit s i now true has_event) i finished e a refl refl refl
        (λ c. absurd (ground (arith, c.0))) (omega arith) (omega arith) (omega (arith, a.starts))
        (λ c. absurd (ground (arith, c.0))) (λ c. absurd (ground (arith, c.0)))
        (λ c. absurd (ground (arith, c.0)))
  pass-Accounts s i now false true admitted extra e f p x a =
      move-Accounts s (admit s i now false true) i executing e a refl refl refl (λ c. c)
        (omega arith) (omega arith) (omega (arith, a.starts)) (λ c. omega arith)
        (λ c. omega (arith, a.all_start c)) (λ c. omega arith)
  pass-Accounts s i now false false admitted extra e f p x a =
      move-Accounts s (admit s i now false false) i finished e a refl refl refl (λ c. c)
        (omega arith) (omega arith) (omega (arith, a.starts)) (λ c. omega arith)
        (λ c. omega (arith, a.all_start c)) (λ c. omega arith)
  pass-Accounts s i now rc has_event queueing extra e f p x a =
      move-Accounts s (go_on s i now rc has_event queueing) i (at_queue rc) e a refl refl refl
        (λ c. c) (omega arith) (omega arith) a.starts (λ c. omega arith) a.all_start
        (λ c. omega arith)
  pass-Accounts s i now rc has_event asleep extra e f p x a =
      move-Accounts s (go_on s i now rc has_event asleep) i (sleeping rc) e a refl refl refl
        (λ c. c) (omega arith) (omega arith) a.starts (λ c. omega arith) a.all_start
        (λ c. omega arith)
  pass-Accounts s i now rc has_event null_pointer extra e f p x a =
      move-Accounts s (go_on s i now rc has_event null_pointer) i crashed e a refl refl refl
        (λ c. c) (omega arith) (omega arith) a.starts (λ c. omega arith) a.all_start
        (λ c. omega arith)

  pub refuse-Accounts :
      (s : System D Q) (i : ℕ) (now : Timespec) (rc has_event : Bool) {old : Worker}
      → get_elem? s.workers i ≡ some old
      → is_finished old ≡ 0
      → (IsCalm s.globals → is_pending old ≡ 0)
      → Accounts m n 0 1 s
      → Accounts m n 0 0 (go_on s i now rc has_event refused)
  unfolding go_on
  refuse-Accounts s i now true has_event e f p a =
      move-Accounts s (go_on s i now true has_event refused) i finished e a refl refl refl
        (λ c. absurd (ground (arith, c.0))) (omega arith) (omega arith) a.starts
        (λ c. absurd (ground (arith, c.0))) (λ c. absurd (ground (arith, c.0)))
        (λ c. absurd (ground (arith, c.0)))
  refuse-Accounts s i now false has_event e f p a =
      move-Accounts s (go_on s i now false has_event refused) i finished e a refl refl refl (λ c. c)
        (omega arith) (omega arith) a.starts (λ c. omega (arith, p c)) a.all_start
        (λ c. omega arith)

module _ {D Q : Type 0} where
  pub IsCalm-Same : {g h : Globals D Q} → Same g h → IsCalm h → IsCalm g
  IsCalm-Same same c = (sym same.error ∙ c.0, sym same.max_time_ns ∙ c.1)

  pub stopped-not_calm :
      {g h : Globals D Q} → Same g h → (g.error ≡ true) ⊎ (0 < g.max_time_ns) → IsCalm h → ⊥
  stopped-not_calm same (inl failed) c = ground (arith, failed, (IsCalm-Same same c).0)
  stopped-not_calm same (inr timed) c = omega (arith, timed, (IsCalm-Same same c).1)

module _ {D : Type 0} (R : Ring) {m n : ℕ} where
  open R use {Queue}

  pub enqueued-Accounts :
      (s : System D Queue) (g : Globals D Queue) (o : Option Queue)
      → g.max_events ≡ s.globals.max_events
      → g.nevents ≡ s.globals.nevents
      → (IsCalm g → IsCalm s.globals)
      → Accounts m n 0 0 s
      → Accounts m n 0 0 (record s { globals = enqueued R g o })
  unfolding enqueued
  enqueued-Accounts s g none me ne calm a = record {
    limit = me ∙ a.limit;
    threads = a.threads;
    admissions = omega (arith, a.admissions, ne);
    refusals = omega (arith, a.refusals, ne);
    starts = a.starts;
    exact = λ c. absurd (ground (arith, c.0));
    all_start = λ c. absurd (ground (arith, c.0));
    all_used = λ c. absurd (ground (arith, c.0));
  }
  enqueued-Accounts s g (some ring) me ne calm a = record {
    limit = me ∙ a.limit;
    threads = a.threads;
    admissions = omega (arith, a.admissions, ne);
    refusals = omega (arith, a.refusals, ne);
    starts = a.starts;
    exact = λ c. omega (arith, a.exact (calm c), ne);
    all_start = λ c. a.all_start (calm c);
    all_used = λ c used. omega (arith, a.all_used (calm c) used, ne);
  }
