-- ===== src/Worker/Heartbeat.antt =====
-- _heartbeat of src/incidentpilot/worker.py: how long a worker goes on without a confirmed lease.
use incidentpilot.Base.{
  In, ap, ◌⊎◌, inl, inr, ℕ, ◌+◌, ◌-◌, ◌≤◌, ◌<◌, ◌≡◌, refl, ◌↔◌, Bool, true, false, List, [], ◌∷◌,
  arith, ltb, Exception, connection_error,
}
use incidentpilot.Worker.{
  Beat, round, renewed, lost, transient, broken, Pulse, beating, stopped, raised, tolerance,
  next_pulse, heartbeat,
}

-- A round sleeps for `beat` and its renewal then takes at most `call`.
abbrev pub Paced : (beat call time : ℕ) → List Beat → Type 0
Paced beat call time [] = Unit
Paced beat call time (round t reply ∷ bs) =
    (time + beat ≤ t) × (t ≤ time + beat + call) × Paced beat call t bs

-- Whenever the loop goes on, a whole beat is left of the lease counted from the last confirmation,
-- and it ends at most one renewal call after that lease.
abbrev pub WithinLease : (lease beat call : ℕ) → Pulse → Type 0
WithinLease lease beat call (beating time confirmed_at) = time + beat ≤ confirmed_at + lease
WithinLease lease beat call (stopped time confirmed_at) = time ≤ confirmed_at + lease + call
WithinLease lease beat call (raised e time confirmed_at) = time ≤ confirmed_at + lease + call

-- The rounds that keep a run alive: each renewal succeeds, or fails in passing before the tolerance.
abbrev pub Healthy : (slack confirmed_at : ℕ) → List Beat → Type 0
Healthy slack confirmed_at [] = Unit
Healthy slack confirmed_at (round t renewed ∷ bs) = Healthy slack t bs
Healthy slack confirmed_at (round t (transient e) ∷ bs) =
    (ltb (t - confirmed_at) slack ≡ true) × Healthy slack confirmed_at bs
Healthy slack confirmed_at (round t _ ∷ bs) = ⊥

abbrev pub IsBeating : Pulse → Type 0
IsBeating (beating time confirmed_at) = Unit
IsBeating _ = ⊥

module _ (lease beat call : ℕ) (long : beat ≤ lease) where
  waits-WithinLease :
      (b : Bool) (e : Exception) (time confirmed_at before : ℕ) (rest : Pulse)
      → ltb (time - confirmed_at) (tolerance lease beat) ≡ b
      → confirmed_at ≤ before
      → before + beat ≤ confirmed_at + lease
      → time ≤ before + beat + call
      → (time + beat ≤ confirmed_at + lease → WithinLease lease beat call rest)
      → WithinLease lease beat call (next_pulse b e time confirmed_at rest)
  waits-WithinLease true e time confirmed_at before rest q o h k go = go (ground arith)
  waits-WithinLease false e time confirmed_at before rest q o h k go = omega (arith, h, k)

  rounds-WithinLease :
      (bs : List Beat) (time confirmed_at : ℕ)
      → confirmed_at ≤ time
      → time + beat ≤ confirmed_at + lease
      → Paced beat call time bs
      → WithinLease lease beat call (heartbeat (tolerance lease beat) time confirmed_at bs)
  unfolding heartbeat
  rounds-WithinLease [] time confirmed_at o h p = h
  rounds-WithinLease (round t renewed ∷ bs) time confirmed_at o h p =
      rounds-WithinLease bs t t (omega arith) (omega (arith, long)) p.2
  rounds-WithinLease (round t lost ∷ bs) time confirmed_at o h p = omega (arith, h, p.1)
  rounds-WithinLease (round t (transient e) ∷ bs) time confirmed_at o h p =
      waits-WithinLease _ e t confirmed_at time _ refl o h p.1
        (λ k. rounds-WithinLease bs t confirmed_at (omega (arith, o, p.0)) k p.2)
  rounds-WithinLease (round t (broken e) ∷ bs) time confirmed_at o h p = omega (arith, h, p.1)

-- The variable confirmed_at at the end.
abbrev pub confirmed : Pulse → ℕ
confirmed (beating time confirmed_at) = confirmed_at
confirmed (stopped time confirmed_at) = confirmed_at
confirmed (raised e time confirmed_at) = confirmed_at

-- It is the time of a renewal that succeeded, or the start.
abbrev pub IsRenewal : (start : ℕ) → List Beat → ℕ → Type 0
IsRenewal start bs c = (c ≡ start) ⊎ In (round c renewed) bs

later :
    (start c : ℕ) (b : Beat) (bs : List Beat) → IsRenewal start bs c → IsRenewal start (b ∷ bs) c
later start c b bs (inl e) = inl e
later start c b bs (inr i) = inr (inr i)

first :
    (start t c : ℕ) (bs : List Beat) → IsRenewal t bs c → IsRenewal start (round t renewed ∷ bs) c
first start t c bs (inl e) = inr (inl (ap (λ x. round x renewed) e))
first start t c bs (inr i) = inr (inr i)

next-IsRenewal :
    (b : Bool) (e : Exception) (time start : ℕ) (rest : Pulse) (bs : List Beat)
    → IsRenewal start bs (confirmed rest)
    → IsRenewal start bs (confirmed (next_pulse b e time start rest))
next-IsRenewal true e time start rest bs h = h
next-IsRenewal false e time start rest bs h = inl refl

confirmed-IsRenewal :
    (slack : ℕ) (bs : List Beat) (time start : ℕ)
    → IsRenewal start bs (confirmed (heartbeat slack time start bs))
unfolding heartbeat
confirmed-IsRenewal slack [] time start = inl refl
confirmed-IsRenewal slack (round t renewed ∷ bs) time start =
    first start t _ bs (confirmed-IsRenewal slack bs t t)
confirmed-IsRenewal slack (round t lost ∷ bs) time start = inl refl
confirmed-IsRenewal slack (round t (transient e) ∷ bs) time start =
    later start _ (round t (transient e)) bs (
      next-IsRenewal (ltb (t - start) slack) e t start (heartbeat slack t start bs) bs
        (confirmed-IsRenewal slack bs t start))
confirmed-IsRenewal slack (round t (broken e) ∷ bs) time start = inl refl

-- The heartbeat gives a run up in time. Let every round sleep for `beat`, at most a lease, and let its
-- renewal take at most `call`. Then whenever the loop goes on, whatever the renewals answered, at least
-- one beat is left of a lease counted from a renewal that succeeded, or from the start; and the
-- round at which it returns or raises is at most `call` past the end of that lease.
pub heartbeat-WithinLease :
    (lease beat call : ℕ) (bs : List Beat) (start : ℕ)
    → beat ≤ lease
    → Paced beat call start bs
    → WithinLease lease beat call (heartbeat (tolerance lease beat) start start bs)
      × IsRenewal start bs (confirmed (heartbeat (tolerance lease beat) start start bs))
heartbeat-WithinLease lease beat call bs start long paced = (
  rounds-WithinLease lease beat call long bs start start (omega arith) (omega (arith, long)) paced,
  confirmed-IsRenewal (tolerance lease beat) bs start start,
)

waits_iff :
    (b : Bool) (e : Exception) (time confirmed_at : ℕ) (rest : Pulse) (Rest : Type 0)
    → (IsBeating rest ↔ Rest)
    → IsBeating (next_pulse b e time confirmed_at rest) ↔ ((b ≡ true) × Rest)
waits_iff true e time confirmed_at rest Rest h = ((λ x. (refl, h.0 x)), (λ y. h.1 y.1))
waits_iff false e time confirmed_at rest Rest h = ((λ x. absurd x), (λ y. cc (y.0)))

-- A run is kept alive exactly as long as each renewal succeeds or fails in passing within the
-- tolerance since the last confirmation: a lost lease, another failure, or a passing failure past
-- the tolerance ends the heartbeat, and nothing else does.
pub heartbeat-IsBeating_iff :
    (slack : ℕ) (bs : List Beat) (time confirmed_at : ℕ)
    → IsBeating (heartbeat slack time confirmed_at bs) ↔ Healthy slack confirmed_at bs
unfolding heartbeat
heartbeat-IsBeating_iff slack [] time confirmed_at = ((λ x. x), (λ x. x))
heartbeat-IsBeating_iff slack (round t renewed ∷ bs) time confirmed_at =
    heartbeat-IsBeating_iff slack bs t t
heartbeat-IsBeating_iff slack (round t lost ∷ bs) time confirmed_at = ((λ x. x), (λ x. x))
heartbeat-IsBeating_iff slack (round t (transient e) ∷ bs) time confirmed_at =
    waits_iff _ e t confirmed_at _ _ (heartbeat-IsBeating_iff slack bs t confirmed_at)
heartbeat-IsBeating_iff slack (round t (broken e) ∷ bs) time confirmed_at = ((λ x. x), (λ x. x))

abbrev hung : ℕ → Beat
hung t = round t (transient (connection_error "pool timeout"))

late_rounds :
    (slack t u confirmed_at : ℕ)
    → ltb (t - confirmed_at) slack ≡ true
    → ltb (u - confirmed_at) slack ≡ false
    → heartbeat slack confirmed_at confirmed_at (hung t ∷ hung u ∷ [])
      ≡ raised (connection_error "pool timeout") u confirmed_at
unfolding heartbeat
late_rounds slack t u confirmed_at h k = rw (h, k) refl

-- The bound is attained. Where a lease is longer than two beats and a renewal may hang for `call`,
-- long enough to bring the first round to one tick before the tolerance, two failing rounds of that
-- pace make the worker go on until `call - 1` after the lease it confirmed at 0 has run out.
pub heartbeat_overruns :
    (lease beat call : ℕ)
    → beat + beat < lease
    → lease ≤ beat + beat + call + 1
    → 0 < call
    → (bs : List Beat) × (e : Exception) × Paced beat call 0 bs
      × (heartbeat (tolerance lease beat) 0 0 bs ≡ raised e (lease - 1 + call) 0)
heartbeat_overruns lease beat call long slow some_time = (
  hung (lease - beat - 1) ∷ hung (lease - 1 + call) ∷ [],
  connection_error "pool timeout",
  (omega arith, omega arith, (omega arith, omega arith, tt)),
  late_rounds (tolerance lease beat) (lease - beat - 1) (lease - 1 + call) 0 (ground arith)
      (ground arith),
)
