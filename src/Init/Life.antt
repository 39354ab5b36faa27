-- ===== src/Init/Life.antt =====
-- What `ena_realize` makes and `ena_exit` gives back (hw/ena.c).
use ena.Base.{
  ℕ, zero, suc, ◌<◌, Bool, true, false, List, ◌∷◌, [], Option, none, some, ◌≡◌, ◌⊎◌, inl, inr, refl,
  arith, ◌==◌, ==_iff, if◌then◌else◌, if_both, subst,
}
use ena.Host.{Host, Event, Timer, moder, keep_alive, timer_new, timer_free, timer_del}
use ena.Device.{EnaState, EnaIrq, msix_vectors, stats_reset}
use ena.Reset.{dev_reset, clear_state, del_moder_timers}
use ena.Regs.Restart.{IsNumbered}
use ena.Init.{number_vectors, new_moder_timers, free_moder_timers, exit, realize_nic, realize}

number_vectors-vector :
    (n : ℕ) (irq : ℕ → EnaIrq) (v : ℕ) → v < n → (number_vectors n irq v).vector ≡ v
unfolding number_vectors
number_vectors-vector zero irq v lt = absurd (omega (arith, lt))
number_vectors-vector (suc n) irq v lt =
    if_both (λ (q : EnaIrq). q.vector ≡ v) (n == v) (λ e. (==_iff n v).0 e)
      (λ e. number_vectors-vector n irq v (ground (arith, lt, e)))

abbrev same_timer : Timer → Timer → Bool
same_timer (moder a) (moder b) = a == b
same_timer keep_alive keep_alive = true
same_timer (moder a) keep_alive = false
same_timer keep_alive (moder b) = false

-- A timer has been made and not been freed since.
abbrev pub is_open : Timer → List Event → Bool
is_open tm [] = false
is_open tm (timer_new x ∷ t) = if same_timer x tm then true else is_open tm t
is_open tm (timer_free x ∷ t) = if same_timer x tm then false else is_open tm t
is_open tm (_ ∷ t) = is_open tm t

-- The keep-alive timer and the moderation timers of the nine vectors
abbrev pub IsOwn : Timer → Type 0
IsOwn (moder v) = v < msix_vectors
IsOwn keep_alive = Unit {0}

new_moder_timers-is_open :
    (n v : ℕ) (t : List Event) → v < n → is_open (moder v) (new_moder_timers n t) ≡ true
unfolding new_moder_timers
new_moder_timers-is_open zero v t lt = absurd (omega (arith, lt))
new_moder_timers-is_open (suc n) v t lt =
    if_both (λ b. b ≡ true) (n == v) (λ _. refl)
      (λ e. new_moder_timers-is_open n v t (ground (arith, lt, e)))

new_moder_timers-keep_alive :
    (n : ℕ) (t : List Event) → is_open keep_alive (new_moder_timers n t) ≡ is_open keep_alive t
unfolding new_moder_timers if◌then◌else◌
new_moder_timers-keep_alive zero t = refl
new_moder_timers-keep_alive (suc n) t = new_moder_timers-keep_alive n t

free_moder_timers-is_open :
    (n v : ℕ) (t : List Event) → v < n → is_open (moder v) (free_moder_timers n t) ≡ false
unfolding free_moder_timers
free_moder_timers-is_open zero v t lt = absurd (omega (arith, lt))
free_moder_timers-is_open (suc n) v t lt =
    if_both (λ b. b ≡ false) (n == v) (λ _. refl)
      (λ e. free_moder_timers-is_open n v t (ground (arith, lt, e)))

-- The vectors send their numbers, and the timers are there.
abbrev pub Realized : EnaState → Type 0
Realized t = IsNumbered t × ((tm : Timer) → IsOwn tm → is_open tm t.trace ≡ true)

realize_nic-Realized : (host : Host) (s : EnaState) → Realized (realize_nic host s)
unfolding realize_nic if◌then◌else◌
realize_nic-Realized host s = (λ v lt. number_vectors-vector msix_vectors s.irq v lt, opened)
  where
    opened : (tm : Timer) → IsOwn tm → is_open tm (realize_nic host s).trace ≡ true
    opened (moder v) own = new_moder_timers-is_open msix_vectors v _ own
    opened keep_alive own = new_moder_timers-keep_alive msix_vectors _

abbrev Whenever : (EnaState → Type 0) → Option EnaState → Type 0
Whenever P none = Unit {0}
Whenever P (some t) = P t

realize-Realized : (host : Host) (s t : EnaState) → realize host s ≡ some t → Realized t
unfolding realize
realize-Realized host s t e =
    subst (Whenever Realized) e (
      if_both (Whenever Realized) host.msix_init_fails (λ _. tt) (λ _. realize_nic-Realized host s))

pub realize-IsNumbered : (host : Host) (s t : EnaState) → realize host s ≡ some t → IsNumbered t
realize-IsNumbered host s t e = (realize-Realized host s t e).0

exit-closed : (u : EnaState) (tm : Timer) → IsOwn tm → is_open tm (exit u).trace ≡ false
unfolding exit if◌then◌else◌
exit-closed u (moder v) own = free_moder_timers-is_open msix_vectors v u.trace own
exit-closed u keep_alive own = refl

del_moder_timers-is_open :
    (n : ℕ) (tm : Timer) (t : List Event) → is_open tm (del_moder_timers n t) ≡ is_open tm t
unfolding del_moder_timers
del_moder_timers-is_open zero tm t = refl
del_moder_timers-is_open (suc n) tm t = del_moder_timers-is_open n tm t

reset-is_open : (u : EnaState) (tm : Timer) → is_open tm (dev_reset u).trace ≡ is_open tm u.trace
unfolding dev_reset clear_state stats_reset
reset-is_open u tm = del_moder_timers-is_open msix_vectors tm (timer_del keep_alive ∷ u.trace)

-- The device exists unless the vectors cannot be had. When it does, every vector sends its own
-- number and the keep-alive timer and the nine moderation timers have been made. A reset, in
-- whatever state it comes, makes and frees none, and the exit, in whatever state it comes, frees
-- each of these timers.
pub realize_lem :
    (host : Host) (s : EnaState)
    → ((realize host s ≡ none) × (host.msix_init_fails ≡ true))
      ⊎ ((t : EnaState) × (realize host s ≡ some t)
          × Realized t
          × ((u : EnaState) (tm : Timer) → is_open tm (dev_reset u).trace ≡ is_open tm u.trace)
          × ((u : EnaState) (tm : Timer) → IsOwn tm → is_open tm (exit u).trace ≡ false))
unfolding realize
realize_lem host s =
    if_both
      (λ o.
        ((o ≡ none) × (host.msix_init_fails ≡ true))
        ⊎ ((t : EnaState) × (o ≡ some t)
            × Realized t
            × ((u : EnaState) (tm : Timer) → is_open tm (dev_reset u).trace ≡ is_open tm u.trace)
            × ((u : EnaState) (tm : Timer) → IsOwn tm → is_open tm (exit u).trace ≡ false)))
      host.msix_init_fails (λ e. inl (refl, e))
      (λ _. inr (realize_nic host s, refl, realize_nic-Realized host s, reset-is_open, exit-closed))
