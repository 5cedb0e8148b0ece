-- ===== src/Manager/Limit.antt =====
-- The restarts of a task over the whole life of the manager: `DoHealthChecks` of
-- internal/manager/manager.go, pass after pass, among the other goroutines.
use task_orchestrator.Prelude.{
  ◌+◌, ◌≡◌, sym, ap, subst, ◌∙◌, inl, inr, false, some, List, [], ◌∷◌, String, All, All-In, arith,
  ◌≢◌, ◌⊎◌,
}
use task_orchestrator.Prelude.Int.{ℤ, pos, leb_ℤ, ◌+64◌}
use task_orchestrator.Errors.{ok, Result-cases}
use task_orchestrator.Store.{StoreLaws}
use task_orchestrator.Task.{Task, Uuid}
use task_orchestrator.Manager.{Parts, Manager}
use task_orchestrator.Manager.Pure.{
  task_restart_max, decide_health_action, action_check, action_restart,
}
use task_orchestrator.Manager.State.{snapshot_tasks, task_locked, begin_restart}
use task_orchestrator.Manager.Send.{get_tasks}
use task_orchestrator.Manager.Reports.{stored}
use task_orchestrator.Manager.Budget.{restarted, MayRestart, decide-MayRestart, begin_restart-view}
use task_orchestrator.Manager.Pass.{DistinctKeys}
use task_orchestrator.Manager.Checking.{
  IsWithinLimit, AtMost, IsWithin, RaisesNone, Checking, Tick, lists, passes, begins, others, Ticks,
  none_yet, and_then,
}

All-map : (P Q : Task → Type 0) (ts : List Task) → ((t : Task) → P t → Q t) → All P ts → All Q ts
All-map P Q [] f h = tt
All-map P Q (t ∷ ts) f h = (f t h.0, All-map P Q ts f h.1)

-- A count at most one that is below the limit may go up by one.
raised-IsWithinLimit :
    (c d : ℤ) → AtMost c d → leb_ℤ task_restart_max d ≡ false → IsWithinLimit (c +64 pos 1)
raised-IsWithinLimit c d (n, m, e, f, l) below =
    let less : leb_ℤ task_restart_max (pos m) ≡ false =
      sym (ap (leb_ℤ task_restart_max) f) ∙ below in
    rw e (n + 1, ground arith, ground arith)

AtMost-trans : (a b c : ℤ) → AtMost a b → AtMost b c → AtMost a c
AtMost-trans a b c (n, m, e, f, l) (i, j, g, h, r) =
    let same : pos m ≡ pos i = sym f ∙ g in (n, j, e, h, ground arith)

AtMost-IsWithinLimit : (a b : ℤ) → AtMost a b → IsWithinLimit b → IsWithinLimit a
AtMost-IsWithinLimit a b (n, m, e, f, l) (i, g, r) =
    let same : pos m ≡ pos i = sym f ∙ g in (n, e, ground arith)

acts-MayRestart :
    (t : Task)
    → (decide_health_action t ≡ action_check) ⊎ (decide_health_action t ≡ action_restart)
    → MayRestart t
acts-MayRestart t acts = elim (decide-MayRestart t) [
  | inl e ↦ absurd (elim acts [ inl a ↦ cc (e, a) | inr a ↦ cc (e, a) ])
  | inr (inl e) ↦ absurd (elim acts [ inl a ↦ cc (e, a) | inr a ↦ cc (e, a) ])
  | inr (inr (may, _)) ↦ may
]

-- `List` gives each stored task once, when each is stored under its own uuid.
abbrev pub ListsOnce : (p : Parts) → StoreLaws p.tasks → Type 0
ListsOnce p laws =
    (db : p.tasks.S) (ts : List Task)
    → laws.IsSound db
    → ((k : String) (t : Task) → laws.view db k ≡ some t → p.uuid_string t.id ≡ k)
    → p.tasks.list db ≡ ok ts
    → DistinctKeys p.uuid_string ts

module _ {p : Parts} (laws : StoreLaws p.tasks) where
  pub listed :
      (m : Manager p) (ts : List Task) → get_tasks m ≡ ok ts → p.tasks.list m.task_db ≡ ok ts
  unfolding get_tasks snapshot_tasks
  listed m ts h = ground arith

  begin_restart-IsSound :
      (id : Uuid) (m : Manager p)
      → laws.IsSound m.task_db
      → laws.IsSound (begin_restart id m).0.task_db
  unfolding begin_restart task_locked
  begin_restart-IsSound id m sound =
      elim (Result-cases (p.tasks.get (p.uuid_string id) m.task_db)) [
        | inr (x, g) ↦ rw (g, begin_restart, task_locked) sound
        | inl (s, g) ↦
            rw (g, begin_restart, task_locked)
              (laws.put-IsSound (p.uuid_string id) (restarted s) m.task_db sound)
      ]

  -- The task is stored, with a count that is at most the one of the snapshot.
  abbrev Counted : Manager p → Task → Type 0
  Counted m t =
      (s : Task) × (stored laws m (p.uuid_string t.id) ≡ some s)
      × AtMost s.restart_count t.restart_count

  -- Between two steps: the counts are within the limit, and the tasks of the snapshot that are not
  -- handled yet have different keys and counts that have not risen since.
  abbrev pub Guarded : Checking p → Type 0
  Guarded c =
      IsWithin laws c.manager × DistinctKeys p.uuid_string c.todo × All (Counted c.manager) c.todo

  pub listed-Counted :
      (m : Manager p) (ts : List Task) → IsWithin laws m → get_tasks m ≡ ok ts → All (Counted m) ts
  listed-Counted m ts within g = All-In (Counted m) ts (λ t here.
      let (k, e) = laws.list_stored ts m.task_db within.0 (listed m ts g) t here in
      let (key, limit) = within.1 k t e in
      let (n, count, l) = limit in
      (t, subst (λ j. stored laws m j ≡ some t) (sym key) e, (n, n, count, count, omega arith)))

  others-Counted : (m u : Manager p) (t : Task) → RaisesNone laws m u → Counted m t → Counted u t
  others-Counted m u t quiet (s, here, most) =
      let (x, there, fewer) = quiet.1 (p.uuid_string t.id) s here in
      (x, there, AtMost-trans x.restart_count s.restart_count t.restart_count fewer most)

  others-IsWithin : (m u : Manager p) → RaisesNone laws m u → IsWithin laws m → IsWithin laws u
  others-IsWithin m u (sound, old, new) within = (
    sound,
    λ k t here.
        let (key, from) = new k t here in
        (
          key,
          elim from [
            | inr limit ↦ limit
            | inl (s, before) ↦
                let (x, there, fewer) = old k s before in
                let same : x ≡ t = cc (there, here) in
                subst (λ (y : Task). IsWithinLimit y.restart_count) same
                  (AtMost-IsWithinLimit x.restart_count s.restart_count fewer
                    (within.1 k s before).1)
          ],
        ),
  )

  begins-IsWithin :
      (t : Task) (m : Manager p)
      → MayRestart t
      → Counted m t
      → IsWithin laws m
      → IsWithin laws (begin_restart t.id m).0
  begins-IsWithin t m may (s, here, most) within = (
    begin_restart-IsSound t.id m within.0,
    λ k x there. elim (begin_restart-view laws t.id s m k here) [
      | inl same ↦ within.1 k x (sym same ∙ there)
      | inr (key, r) ↦
          let this : restarted s ≡ x = cc (r, there) in
          (
            ap (λ (y : Task). p.uuid_string y.id) (sym this)
                ∙ (within.1 (p.uuid_string t.id) s here).0
                ∙ key,
            subst (λ (y : Task). IsWithinLimit y.restart_count) this
                (raised-IsWithinLimit s.restart_count t.restart_count most may.1),
          )
    ],
  )

  begins-Counted :
      (t : Task) (m : Manager p) (ts : List Task)
      → Counted m t
      → All (λ (x : Task). p.uuid_string t.id ≢ p.uuid_string x.id) ts
      → All (Counted m) ts
      → All (Counted (begin_restart t.id m).0) ts
  begins-Counted t m [] c d h = tt
  begins-Counted t m (x ∷ ts) (s, here, most) d h = (
    (let (y, there, fewer) = h.0 in
        elim (begin_restart-view laws t.id s m (p.uuid_string x.id) here) [
          | inl same ↦ (y, same ∙ there, fewer)
          | inr (key, r) ↦ absurd (d.0 key)
        ]),
    begins-Counted t m ts (s, here, most) d.1 h.1,
  )

  pub Tick-Guarded : (c d : Checking p) → ListsOnce p laws → Tick laws c d → Guarded c → Guarded d
  Tick-Guarded c d once (lists ts n g) (within, differ, counted) = (
    within,
    once c.manager.task_db ts within.0 (λ k t h. (within.1 k t h).0) (listed c.manager ts g),
    listed-Counted c.manager ts within g,
  )
  Tick-Guarded c d once (passes t ts n) (within, differ, counted) = (
    within,
    (subst (DistinctKeys p.uuid_string) n differ).1,
    (subst (All (Counted c.manager)) n counted).1,
  )
  Tick-Guarded c d once (begins t ts n acts) (within, differ, counted) =
      let (apart, rest) = subst (DistinctKeys p.uuid_string) n differ in
      let (this, later) = subst (All (Counted c.manager)) n counted in
      (
        begins-IsWithin t c.manager (acts-MayRestart t acts) this within,
        rest,
        begins-Counted t c.manager ts this apart later,
      )
  Tick-Guarded c d once (others u quiet) (within, differ, counted) = (
    others-IsWithin c.manager u quiet within,
    differ,
    All-map (Counted c.manager) (Counted u) c.todo (λ t. others-Counted c.manager u t quiet)
        counted,
  )

  pub Ticks-Guarded : (c d : Checking p) → ListsOnce p laws → Ticks laws c d → Guarded c → Guarded d
  Ticks-Guarded c d once none_yet guarded = guarded
  Ticks-Guarded c d once (and_then {mid} before x) guarded =
      Tick-Guarded mid d once x (Ticks-Guarded c mid once before guarded)

  -- When the store lists each task once, and holds each under its own uuid with a restart count from
  -- zero to three: however many passes of the health checks run, and whatever the other goroutines do
  -- between the locked calls of a pass, if they raise no count of a stored task, and store new tasks
  -- only under their own uuid with a count within the limit, then it is still so, and no restart
  -- count has passed three.
  pub Ticks-IsWithin :
      (m : Manager p) (c : Checking p)
      → ListsOnce p laws
      → IsWithin laws m
      → Ticks laws (record { manager = m; todo = [] }) c
      → IsWithin laws c.manager
  Ticks-IsWithin m c once within ticks =
      (Ticks-Guarded (record { manager = m; todo = [] }) c once ticks (within, tt, tt)).0
