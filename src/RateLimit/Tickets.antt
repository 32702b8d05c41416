-- ===== src/RateLimit/Tickets.antt =====
-- The tickets of a bucket: in the order in which they were issued.
use duckdb_fdw.Base.{ℕ, ◌+◌, ◌≤◌, ◌≡◌, true, false, List, [], ◌∷◌, ◌++◌, arith, length}
use duckdb_fdw.RateLimit.Coordinator.{is_empty, has_ticket, drop_ticket}
use duckdb_fdw.RateLimit.Sections.{pop_front}

-- The tickets rise, from `low` on and below `next`.
abbrev pub IsRising : ℕ → ℕ → List ℕ → Type 0
IsRising low next [] = low ≤ next
IsRising low next (t ∷ ts) = (low ≤ t) × IsRising (t + 1) next ts

IsRising-below :
    (low low' next : ℕ) (ts : List ℕ) → low' ≤ low → IsRising low next ts → IsRising low' next ts
IsRising-below low low' next [] h r = omega arith
IsRising-below low low' next (t ∷ ts) h r = (omega arith, r.1)

pub IsRising-low : (low next : ℕ) (ts : List ℕ) → IsRising low next ts → low ≤ next
IsRising-low low next [] r = r
IsRising-low low next (t ∷ ts) r = omega (arith, IsRising-low (t + 1) next ts r.1, r.0)

pub IsRising-later :
    (low next : ℕ) (ts : List ℕ) → IsRising low next ts → IsRising low (next + 1) ts
IsRising-later low next [] r = omega arith
IsRising-later low next (t ∷ ts) r = (r.0, IsRising-later (t + 1) next ts r.1)

pub IsRising-snoc :
    (low next : ℕ) (ts : List ℕ) → IsRising low next ts → IsRising low (next + 1) (ts ++ next ∷ [])
IsRising-snoc low next [] r = (r, omega arith)
IsRising-snoc low next (t ∷ ts) r = (r.0, IsRising-snoc (t + 1) next ts r.1)

pub IsRising-drop :
    (low next ticket : ℕ) (ts : List ℕ)
    → IsRising low next ts
    → IsRising low next (drop_ticket ticket ts)
unfolding drop_ticket
IsRising-drop low next ticket [] r = r
IsRising-drop low next ticket (t ∷ ts) r =
    ground (arith, IsRising-drop (t + 1) next ticket ts r.1, IsRising-below (t + 1) low next ts)

pub IsRising-pop :
    (low next : ℕ) (ts : List ℕ) → IsRising low next ts → IsRising low next (pop_front ts)
IsRising-pop low next [] r = r
IsRising-pop low next (t ∷ ts) r = IsRising-below (t + 1) low next ts (omega (arith, r.0)) r.1

pub length-drop_ticket :
    (ticket : ℕ) (ts : List ℕ)
    → has_ticket ticket ts ≡ true
    → length ts ≡ length (drop_ticket ticket ts) + 1
unfolding has_ticket drop_ticket
length-drop_ticket ticket [] h = ground arith
length-drop_ticket ticket (t ∷ ts) h = ground (arith, length-drop_ticket ticket ts)

pub is_empty-length : (ts : List ℕ) → is_empty ts ≡ true → length ts ≡ 0
is_empty-length [] e = ground arith
is_empty-length (t ∷ ts) e = ground arith

pub not_has_ticket-empty :
    (ticket : ℕ) (ts : List ℕ) → is_empty ts ≡ true → has_ticket ticket ts ≡ false
unfolding has_ticket
not_has_ticket-empty ticket [] e = ground arith
not_has_ticket-empty ticket (t ∷ ts) e = ground arith
