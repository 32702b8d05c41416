-- ===== src/Generations/Steps.antt =====
-- The registry and the leases on it, under any calls of any callers in any order. A call stands where
-- it holds the publication mutex; `Close` stands at its two stores.
use duckdb_fdw.Base.{
  ℕ, ◌≤◌, ◌≡◌, refl, sym, ap, ◌∙◌, subst, inl, inr, Bool, true, false, ◌||◌, Option, none, some,
  List, [], ◌∷◌, ◌++◌, All, All-map, arith, if◌then◌else◌, length, length-append, Bool-cases,
}
use duckdb_fdw.Generations.{
  Generation, Snapshot, Registry, Outcome, gives, fails, rejected, cancelled, waits, bad_stage,
  Staged, Decision, create,
}
use duckdb_fdw.Generations.Staging.{
  stage_load, stage_reload, commit, discard, close_begins, close_ends,
}
use duckdb_fdw.Generations.Leases.{
  IsSnapshot, IsUpdate, IsGrant, IsStaged, IsActive, has_active, stage_load-IsStaged,
  stage_reload-IsStaged,
}

pub record System : Type 0 where
  pub shared : Registry
  pub leases : List Staged

abbrev pub system : Registry → List Staged → System
system s leases = record { shared = s; leases = leases }

-- The pending leases after a call.
abbrev pub leased : List Staged → Outcome Staged → List Staged
leased leases (gives g) = if g.is_changed then g ∷ leases else leases
leased leases _ = leases

abbrev pub after : List Staged → Registry × Outcome Staged → System
after leases r = system r.0 (leased leases r.1)

pub data Step : System → System → Type 0 where
  loads :
      (s : Registry) (leases : List Staged) (times_out cancels : Bool) (base : Option ℕ)
      (candidate : Option Generation) (late : Bool)
      → Step (system s leases) (after leases (stage_load s times_out cancels base candidate late))
  reloads :
      (s : Registry) (leases : List Staged) (times_out cancels : Bool) (base : Option ℕ)
      (candidate : Option Generation) (decision : Decision) (early late : Bool)
      → Step
          (system s leases)
          (after leases (stage_reload s times_out cancels base candidate decision early late))
  commits :
      (s : Registry) (xs ys : List Staged) (g : Staged)
      → Step (system s (xs ++ g ∷ ys)) (system (commit s g.target) (xs ++ ys))
  discards :
      (s : Registry) (xs ys : List Staged) (g : Staged)
      → Step (system s (xs ++ g ∷ ys)) (system (discard s) (xs ++ ys))
  closing_begins :
      (s : Registry) (leases : List Staged)
      → Step (system s leases) (system (close_begins s) leases)
  closing_ends :
      (s : Registry) (leases : List Staged)
      → s.closing ≡ true
      → Step (system s leases) (system (close_ends s) leases)

pub data Reach : System → Type 0 where
  starts : Reach (system create [])
  steps : (a b : System) → Reach a → Step a b → Reach b

-- A pending lease: its target is the active snapshot with the owner of one connector changed.
abbrev pub IsLease : Registry → Staged → Type 0
IsLease s g =
    IsSnapshot s.next g.target
    × ((a : Snapshot) × (s.active ≡ some a) × IsUpdate a g.target g.owner)

-- The mutex is held by the one pending lease; the active snapshot is in order; a pending lease is an
-- update of it; and there is an active snapshot until the registry closes.
pub record Inv (s : Registry) (leases : List Staged) : Type 0 where
  pub locks : length leases ≡ (if s.locked then 1 else 0)
  pub active : IsActive s.next s.active
  pub pending : All (IsLease s) leases
  pub present : (s.closing || has_active s.active) ≡ true

later-IsActive : (m n : ℕ) (o : Option Snapshot) → m ≤ n → IsActive m o → IsActive n o
later-IsActive m n none h v = tt
later-IsActive m n (some a) h v = record { sorted = v.sorted; given = omega (arith, v.given, h) }

pub no_leases : (leases : List Staged) → length leases ≡ 0 → leases ≡ []
no_leases [] h = refl
no_leases (g ∷ gs) h = ground (arith, h)

pub one_lease :
    (xs ys : List Staged) (g : Staged) (n : ℕ)
    → length (xs ++ g ∷ ys) ≡ n
    → n ≤ 1
    → (n ≡ 1) × (xs ++ ys ≡ [])
one_lease [] [] g n h k = (ground (arith, h), refl)
one_lease [] (y ∷ ys) g n h k = ground (arith, h, k)
one_lease (x ∷ xs) ys g n h k = ground (arith, h, k, length-append xs (g ∷ ys))

create-Inv : Inv create []
create-Inv = record {
  locks = refl;
  active = record { sorted = tt; given = omega arith };
  pending = tt;
  present = refl;
}

later-IsLease :
    (s t : Registry) (g : Staged)
    → t.active ≡ s.active
    → s.next ≤ t.next
    → IsLease s g
    → IsLease t g
later-IsLease s t g active next l = (
  record { sorted = l.0.sorted; given = omega (arith, l.0.given, next) },
  (l.1.0, active ∙ l.1.1, l.1.2),
)

kept-Inv :
    (s t : Registry) (leases : List Staged)
    → t.locked ≡ s.locked
    → t.active ≡ s.active
    → t.closing ≡ s.closing
    → s.next ≤ t.next
    → Inv s leases
    → Inv t leases
kept-Inv s t leases locked active closing next v = record {
  locks = v.locks ∙ ap (λ b. if b then 1 else 0) (sym locked);
  active =
      subst (IsActive t.next) (sym active) (later-IsActive s.next t.next s.active next v.active);
  pending =
      All-map (IsLease s) (IsLease t) leases (λ g l. later-IsLease s t g active next l) v.pending;
  present = rw (closing, active) v.present;
}

granted-Inv :
    (s t : Registry) (leases : List Staged) (g : Staged)
    → t.locked ≡ true
    → s.locked ≡ false
    → IsSnapshot t.next g.target
    → ((a : Snapshot) × (s.active ≡ some a) × IsUpdate a g.target g.owner)
    → t.active ≡ s.active
    → t.closing ≡ s.closing
    → s.next ≤ t.next
    → Inv s leases
    → Inv t (g ∷ leases)
granted-Inv s t leases g locked free target update active closing next v =
    let none_left = no_leases leases (v.locks ∙ rw free refl) in
    record {
      locks = ground (arith, none_left, locked);
      active =
          subst (IsActive t.next) (sym active)
            (later-IsActive s.next t.next s.active next v.active);
      pending = (
        (target, (update.0, active ∙ update.1, update.2)),
        All-map (IsLease s) (IsLease t) leases (λ h l. later-IsLease s t h active next l) v.pending,
      );
      present = rw (closing, active) v.present;
    }

staged-Inv :
    (s : Registry) (leases : List Staged) (r : Registry × Outcome Staged)
    → IsStaged s r
    → Inv s leases
    → Inv r.0 (leased leases r.1)
staged-Inv s leases (t, gives g) staged v = elim (Bool-cases g.is_changed) [
  | inl new ↦
      let grant = subst (IsGrant s t g) new staged.0 in
      subst (λ b. Inv t (if b then g ∷ leases else leases)) (sym new)
        (granted-Inv s t leases g grant.0 grant.1 grant.2 grant.3 staged.1 staged.2 staged.3 v)
  | inr same ↦
      let kept = subst (IsGrant s t g) same staged.0 in
      subst (λ b. Inv t (if b then g ∷ leases else leases)) (sym same)
        (kept-Inv s t leases kept staged.1 staged.2 staged.3 v)
]
staged-Inv s leases (t, fails f) staged v =
    kept-Inv s t leases staged.0 staged.1 staged.2 staged.3 v
staged-Inv s leases (t, rejected c) staged v =
    kept-Inv s t leases staged.0 staged.1 staged.2 staged.3 v
staged-Inv s leases (t, cancelled) staged v =
    kept-Inv s t leases staged.0 staged.1 staged.2 staged.3 v
staged-Inv s leases (t, waits) staged v = kept-Inv s t leases staged.0 staged.1 staged.2 staged.3 v
staged-Inv s leases (t, bad_stage) staged v =
    kept-Inv s t leases staged.0 staged.1 staged.2 staged.3 v

closed-Inv :
    (s : Registry) (leases : List Staged)
    → Inv s leases
    → s.closing ≡ true
    → Inv (close_ends s) leases
unfolding close_ends
closed-Inv s leases v closing = elim (Bool-cases s.locked) [
  | inl locked ↦
      subst (λ b. Inv (if b then s else record s { active = none }) leases) (sym locked) v
  | inr free ↦
      let none_left = no_leases leases (v.locks ∙ rw free refl) in
      subst (λ b. Inv (if b then s else record s { active = none }) leases) (sym free)
        (record {
          locks = v.locks;
          active = tt;
          pending = subst (All (IsLease (record s { active = none }))) (sym none_left) tt;
          present = ground (arith, closing);
        })
]

-- The end of the one lease, with the active snapshot that it leaves.
ended-Inv :
    (s : Registry) (xs ys : List Staged) (g : Staged) (active : Option Snapshot)
    → Inv s (xs ++ g ∷ ys)
    → IsActive s.next active
    → (s.closing || has_active active) ≡ true
    → Inv (record s { active = active; locked = false }) (xs ++ ys)
ended-Inv s xs ys g active v good present =
    let none_left = (one_lease xs ys g (if s.locked then 1 else 0) v.locks (ground arith)).1 in
    record {
      locks = ap length none_left;
      active = good;
      pending =
          subst (All (IsLease (record s { active = active; locked = false }))) (sym none_left) tt;
      present = present;
    }

-- The lease among the pending ones.
pub IsLease-of :
    (s : Registry) (xs ys : List Staged) (g : Staged) → All (IsLease s) (xs ++ g ∷ ys) → IsLease s g
IsLease-of s [] ys g all = all.0
IsLease-of s (x ∷ xs) ys g all = IsLease-of s xs ys g all.1

Step-Inv : (a b : System) → Step a b → Inv a.shared a.leases → Inv b.shared b.leases
unfolding commit discard close_begins
Step-Inv _ _ (loads s leases times_out cancels base candidate late) v =
    staged-Inv s leases (stage_load s times_out cancels base candidate late)
      (stage_load-IsStaged s times_out cancels base candidate late v.active) v
Step-Inv _ _ (reloads s leases times_out cancels base candidate decision early late) v =
    staged-Inv s leases (stage_reload s times_out cancels base candidate decision early late)
      (stage_reload-IsStaged s times_out cancels base candidate decision early late v.active) v
Step-Inv _ _ (commits s xs ys g) v =
    ended-Inv s xs ys g (some g.target) v (IsLease-of s xs ys g v.pending).0 (ground arith)
Step-Inv _ _ (discards s xs ys g) v = ended-Inv s xs ys g s.active v v.active v.present
Step-Inv _ _ (closing_begins s leases) v = record {
  locks = v.locks;
  active = v.active;
  pending = v.pending;
  present = refl;
}
Step-Inv _ _ (closing_ends s leases closing) v = closed-Inv s leases v closing

-- In every reachable state the mutex is held exactly for the one pending lease; the snapshots have
-- their owners in the order of their connectors, none twice; the target of a pending lease is the
-- active snapshot with the owner of one connector changed; and until the registry closes there is an
-- active snapshot.
pub registry-Inv : (a : System) → Reach a → Inv a.shared a.leases
registry-Inv _ starts = create-Inv
registry-Inv _ (steps a b before step) = Step-Inv a b step (registry-Inv a before)
