-- ===== src/Incidents/Laws.antt =====
-- The lock of the cards while the page stays open and when it is left
-- (web/src/pages/IncidentsView.tsx).
use ophanim.Base.{
  ℕ, suc, ap, length-append, ◌≤◌, ◌≡◌, refl, ◌⊎◌, inl, inr, Bool, true, false, none, some, List, [],
  ◌∷◌, ◌++◌, Text, arith, ◌===◌, text_eq_instance, text_eq_refl, text_eq_sym, sym, ◌∙◌, length,
  Bool-cases, ◌||◌,
}
use ophanim.Incidents.{
  Act, IncidentsState, first_incidents, is_locked, start_act, end_act, end_left, return_to_page,
}

-- The clicks on the cards of `Allowed` incidents, and the actions that settle, in any order.
pub data ActStep (Allowed : Text → Type 0) (s : IncidentsState) : IncidentsState → Type 0 where
  clicked : (i : Text) (a : Act) → Allowed i → ActStep Allowed s (start_act i a s)
  settled :
      (earlier later : List (Text × Act)) (one : Text × Act)
      → s.running ≡ earlier ++ one ∷ later
      → ActStep Allowed s (end_act (earlier ++ later) s)
  left_settled :
      (earlier later : List (Text × Act)) (one : Text × Act)
      → s.left_behind ≡ earlier ++ one ∷ later
      → ActStep Allowed s (end_left (earlier ++ later) s)

-- What is reached with a number of returns to the page.
pub data ActReach (Allowed : Text → Type 0) (s : IncidentsState) : ℕ → IncidentsState → Type 0 where
  start : ActReach Allowed s 0 s
  after :
      {n : ℕ} {t u : IncidentsState}
      → ActReach Allowed s n t
      → ActStep Allowed t u
      → ActReach Allowed s n u
  returned :
      {n : ℕ} {t : IncidentsState}
      → ActReach Allowed s n t
      → ActReach Allowed s (suc n) (return_to_page t)

-- Is an action of this incident running?
abbrev pub is_running_on : Text → List (Text × Act) → Bool
is_running_on i [] = false
is_running_on i ((j, a) ∷ rs) = j === i || is_running_on i rs

is_running_on-snoc :
    (k i : Text) (a : Act) (rs : List (Text × Act))
    → (i === k) ≡ true
    → is_running_on k (rs ++ (i, a) ∷ []) ≡ true
is_running_on-snoc k i a [] h = rw h refl
is_running_on-snoc k i a ((j, b) ∷ rs) h = ground (arith, is_running_on-snoc k i a rs h)

-- The locked incident, if there is one, is acted on.
abbrev IsActing : IncidentsState → Type 0
IsActing s = (i : Text) → is_locked i s.acting_id ≡ true → is_running_on i s.running ≡ true

start_act-IsActing :
    (i : Text) (a : Act) (s : IncidentsState) → IsActing s → IsActing (start_act i a s)
unfolding start_act is_locked
start_act-IsActing i a s h = elim (Bool-cases (is_locked i s.acting_id)) [
  | inl e ↦ rw e h
  | inr e ↦ rw e (λ k f. is_running_on-snoc k i a s.running f)
]

ActStep-IsActing :
    {Allowed : Text → Type 0} {s t : IncidentsState} → ActStep Allowed s t → IsActing s → IsActing t
ActStep-IsActing {s = s} (clicked i a ok) h = start_act-IsActing i a s h
ActStep-IsActing {s = s} (settled earlier later one e) h = unfold end_act is_locked in (λ i f. cc)
ActStep-IsActing {s = s} (left_settled earlier later one e) h = unfold end_left in h

-- Whatever is clicked and left and however the actions settle, a card that is locked has an action
-- running, so no card stays locked once every action has settled.
ActReach-IsActing :
    {Allowed : Text → Type 0} {n : ℕ} {s : IncidentsState}
    → ActReach Allowed first_incidents n s
    → (i : Text) → is_locked i s.acting_id ≡ true
    → is_running_on i s.running ≡ true
ActReach-IsActing start i e = unfold first_incidents is_locked in cc
ActReach-IsActing (after r step) i e = ActStep-IsActing step (λ k f. ActReach-IsActing r k f) i e
ActReach-IsActing (returned r) i e = unfold return_to_page is_locked in cc

-- Nothing runs, or the one action of this incident.
abbrev IsSingle : Text → IncidentsState → Type 0
IsSingle i s =
    ((a : Act) × (s.acting_id ≡ some i) × (s.running ≡ (i, a) ∷ []))
    ⊎ ((s.acting_id ≡ none) × (s.running ≡ []))

start_act-IsSingle :
    (i : Text) (a : Act) (s : IncidentsState) → IsSingle i s → IsSingle i (start_act i a s)
unfolding start_act is_locked
start_act-IsSingle i a s (inl (b, acting, one)) =
    inl (b, ground (arith, text_eq_refl i), ground (arith, text_eq_refl i))
start_act-IsSingle i a s (inr (idle, none_run)) = rw (idle, none_run) (inl (a, refl, refl))

-- Taking one out of at most one leaves nothing.
rest_nil :
    {A : Type 0} (earlier later : List A) (x y : A)
    → y ∷ [] ≡ earlier ++ x ∷ later
    → earlier ++ later ≡ []
rest_nil [] [] x y e = refl
rest_nil [] (z ∷ later) x y e = cc
rest_nil (z ∷ []) later x y e = cc
rest_nil (z ∷ w ∷ earlier) later x y e = cc

end_act-IsSingle :
    (i : Text) (s : IncidentsState) (earlier later : List (Text × Act)) (one : Text × Act)
    → s.running ≡ earlier ++ one ∷ later
    → IsSingle i s
    → IsSingle i (end_act (earlier ++ later) s)
unfolding end_act
end_act-IsSingle i s earlier later one e (inl (b, acting, run)) =
    inr (refl, rest_nil earlier later one (i, b) (sym run ∙ e))
end_act-IsSingle i s [] later one e (inr (idle, none_run)) = cc
end_act-IsSingle i s (x ∷ earlier) later one e (inr (idle, none_run)) = cc

length-shorter :
    {A : Type 0} (earlier later : List A) (x : A) (xs : List A) (n : ℕ)
    → xs ≡ earlier ++ x ∷ later
    → length xs ≤ n
    → length (earlier ++ later) ≤ n
length-shorter earlier later x xs n e h =
    omega
      (arith, ap (λ l. length l) e, length-append earlier (x ∷ later), length-append earlier later)

-- On the page nothing runs or the one action of this incident, and each return left at most one.
abbrev IsSpread : Text → ℕ → IncidentsState → Type 0
IsSpread i n s = IsSingle i s × (length s.left_behind ≤ n)

length-single : (i : Text) (s : IncidentsState) → IsSingle i s → length s.running ≤ 1
length-single i s (inl (b, acting, run)) = rw run (omega arith)
length-single i s (inr (idle, none_run)) = rw none_run (omega arith)

left-start_act :
    (i : Text) (a : Act) (s : IncidentsState) → (start_act i a s).left_behind ≡ s.left_behind
unfolding start_act
left-start_act i a s = ground arith

ActStep-IsSpread :
    (i : Text) (n : ℕ) {s t : IncidentsState}
    → ActStep (λ j. j ≡ i) s t
    → IsSpread i n s
    → IsSpread i n t
ActStep-IsSpread i n {s} (clicked j a same) (single, few) =
    (rw same (start_act-IsSingle i a s single), rw (left-start_act j a s) few)
ActStep-IsSpread i n {s} (settled earlier later one e) (single, few) =
    (end_act-IsSingle i s earlier later one e single, unfold end_act in few)
ActStep-IsSpread i n {s} (left_settled earlier later one e) (single, few) =
    unfold end_left in (single, length-shorter earlier later one s.left_behind n e few)

return_to_page-IsSpread :
    (i : Text) (n : ℕ) (s : IncidentsState) → IsSpread i n s → IsSpread i (suc n) (return_to_page s)
unfolding return_to_page
return_to_page-IsSpread i n s (single, few) = (
  inr (refl, refl),
  omega (arith, few, length-single i s single, length-append s.left_behind s.running),
)

ActReach-IsSpread :
    (i : Text) {n : ℕ} {s : IncidentsState}
    → ActReach (λ j. j ≡ i) first_incidents n s
    → IsSpread i n s
ActReach-IsSpread i start = unfold first_incidents in (inr (refl, refl), omega arith)
ActReach-IsSpread i {n} (after r step) = ActStep-IsSpread i n step (ActReach-IsSpread i r)
ActReach-IsSpread i (returned {n} {t} r) = return_to_page-IsSpread i n t (ActReach-IsSpread i r)

IsSingle-once :
    (i : Text) (s : IncidentsState)
    → IsSingle i s
    → (length s.running ≤ 1) × (is_locked i s.acting_id ≡ is_running_on i s.running)
unfolding is_locked
IsSingle-once i s (inl (b, acting, run)) = rw (acting, run, text_eq_refl i) (omega arith, refl)
IsSingle-once i s (inr (idle, none_run)) = rw (idle, none_run) (omega arith, refl)

-- As long as one incident's card only is clicked, the page that is open never runs its action
-- twice: at most one action that was started in it runs, and the card is locked exactly while it
-- does. Leaving the page drops the lock: beside that action there may run one for each time that
-- the page was left and entered again, and no more.
pub ActReach-once :
    (i : Text) {n : ℕ} {s : IncidentsState}
    → ActReach (λ j. j ≡ i) first_incidents n s
    → (length s.running ≤ 1)
      × (is_locked i s.acting_id ≡ is_running_on i s.running)
      × (length s.left_behind ≤ n)
ActReach-once i {s = s} r =
    let (single, few) = ActReach-IsSpread i r in
    let (one, locked) = IsSingle-once i s single in (one, locked, few)

-- The lock holds one identifier. When a second incident is acted on while the first one's action
-- runs, the first card is unlocked, and a click on it starts its action again, so that it runs
-- twice; and when the second action settles no card is locked, though the first action runs.
pub start_act-twice :
    (i j : Text) (a b : Act)
    → (j === i) ≡ false
    → let both = start_act j b (start_act i a first_incidents) in
      (is_locked i both.acting_id ≡ false)
      × ((start_act i a both).running ≡ (i, a) ∷ (j, b) ∷ (i, a) ∷ [])
      × ((end_act ((i, a) ∷ []) both).acting_id ≡ none)
unfolding start_act first_incidents is_locked end_act
start_act-twice i j a b e =
    let f : (i === j) ≡ false = text_eq_sym i j ∙ e in (ground arith, ground arith, refl)

-- Leaving the page and coming back while an action runs unlocks its card, and a click on it starts
-- the action a second time.
start_act-return_to_page :
    (i : Text) (a : Act)
    → let again = start_act i a (return_to_page (start_act i a first_incidents)) in
      (again.running ≡ (i, a) ∷ []) × (again.left_behind ≡ (i, a) ∷ [])
unfolding start_act first_incidents is_locked return_to_page
start_act-return_to_page i a = (refl, refl)
