-- ===== src/Relay/CatchUp.antt =====
-- `select_catch_up_messages` of src/promo_bot/relay/catchup.py. Times are microseconds since an epoch
-- that no lookback reaches before. Of a message, its id and its time are read.
use mathlib.Core.Path.{subst}
use mathlib.Core.List.Perm
use mathlib.Core.List.{Perm}
use promo_bot.Base.{
  ◌<◌, ◌⊎◌, ◌↔◌, both, ℕ, ◌-◌, ◌*◌, ◌≡◌, ◌≤◌, ◌++◌, refl, sym, Bool, true, false, ◌&&◌, Option,
  none, some, List, [], ◌∷◌, ◌==◌, leb, ltb, if◌then◌else◌, length, drop, take, All, All-drop,
  length-drop, All-map, zero, suc, arith, Bool-cases, inl, inr,
}

pub record Incoming : Type 0 where
  pub message_id : ℕ
  pub occurred_at : ℕ

abbrev pub hour : ℕ
hour = 3600000000

abbrev pub after : Option ℕ → ℕ → Bool
after none message_id = true
after (some checkpoint) message_id = ltb checkpoint message_id

abbrev pub eligible : (cutoff : ℕ) → Option ℕ → Incoming → Bool
eligible cutoff checkpoint_id m = leb cutoff m.occurred_at && after checkpoint_id m.message_id

abbrev pub eligible_of : (cutoff : ℕ) → Option ℕ → List Incoming → List Incoming
eligible_of cutoff checkpoint_id [] = []
eligible_of cutoff checkpoint_id (m ∷ ms) =
    let rest = eligible_of cutoff checkpoint_id ms in
    if eligible cutoff checkpoint_id m then m ∷ rest else rest

-- `sorted`, which is stable, by the message id
abbrev pub placed : Incoming → List Incoming → List Incoming
placed m [] = m ∷ []
placed m (x ∷ xs) =
    let later = x ∷ placed m xs in if leb m.message_id x.message_id then m ∷ x ∷ xs else later

abbrev pub sorted : List Incoming → List Incoming
sorted [] = []
sorted (m ∷ ms) = placed m (sorted ms)

-- `xs[-n:]`, which for 0 is all of `xs`
abbrev pub last_of : ℕ → List Incoming → List Incoming
last_of n xs = if n == 0 then xs else drop (length xs - n) xs

unfoldable pub select_catch_up_messages :
    List Incoming → (now lookback_hours max_messages : ℕ) → Option ℕ → List Incoming
select_catch_up_messages messages now lookback_hours max_messages checkpoint_id =
    last_of max_messages (sorted (eligible_of (now - lookback_hours * hour) checkpoint_id messages))

module _ (P : Incoming → Type 0) where
  All-eligible :
      (cutoff : ℕ) (c : Option ℕ) (ms : List Incoming)
      → ((m : Incoming) → eligible cutoff c m ≡ true → P m)
      → All P (eligible_of cutoff c ms)
  All-eligible cutoff c [] h = tt
  All-eligible cutoff c (m ∷ ms) h = elim (Bool-cases (eligible cutoff c m)) [
    | inl yes' ↦ rw yes' (h m yes', All-eligible cutoff c ms h)
    | inr no' ↦ rw no' (All-eligible cutoff c ms h)
  ]

  All-placed : (m : Incoming) (xs : List Incoming) → P m → All P xs → All P (placed m xs)
  All-placed m [] p h = (p, tt)
  All-placed m (x ∷ xs) p (q, h) = elim (Bool-cases (leb m.message_id x.message_id)) [
    | inl before ↦ rw before (p, (q, h))
    | inr after' ↦ rw after' (q, All-placed m xs p h)
  ]

  All-sorted : (ms : List Incoming) → All P ms → All P (sorted ms)
  All-sorted [] h = tt
  All-sorted (m ∷ ms) (p, h) = All-placed m (sorted ms) p (All-sorted ms h)

  All-last : (n : ℕ) (ms : List Incoming) → All P ms → All P (last_of n ms)
  All-last n ms h = elim (Bool-cases (n == 0)) [
    | inl all ↦ rw all h
    | inr some' ↦ rw some' (All-drop P (length ms - n) ms h)
  ]

-- Oldest first.
abbrev pub IsAscending : List Incoming → Type 0
IsAscending [] = Unit
IsAscending (m ∷ ms) = All (λ x. m.message_id ≤ x.message_id) ms × IsAscending ms

placed-IsAscending :
    (m : Incoming) (xs : List Incoming) → IsAscending xs → IsAscending (placed m xs)
placed-IsAscending m [] h = (tt, tt)
placed-IsAscending m (x ∷ xs) (a, h) = elim (Bool-cases (leb m.message_id x.message_id)) [
  | inl before ↦
      let le : m.message_id ≤ x.message_id = ground arith in
      rw before ((le, All-map xs (λ y q. le_trans m x y le q) a), (a, h))
  | inr after' ↦
      let le : x.message_id ≤ m.message_id = ground arith in
      rw after' (All-placed (λ y. x.message_id ≤ y.message_id) m xs le a, placed-IsAscending m xs h)
]
  where
    le_trans :
        (m x y : Incoming)
        → m.message_id ≤ x.message_id
        → x.message_id ≤ y.message_id
        → m.message_id ≤ y.message_id
    le_trans m x y p q = omega arith

sorted-IsAscending : (ms : List Incoming) → IsAscending (sorted ms)
sorted-IsAscending [] = tt
sorted-IsAscending (m ∷ ms) = placed-IsAscending m (sorted ms) (sorted-IsAscending ms)

drop-IsAscending : (n : ℕ) (ms : List Incoming) → IsAscending ms → IsAscending (drop n ms)
drop-IsAscending zero ms h = h
drop-IsAscending (suc n) [] h = tt
drop-IsAscending (suc n) (m ∷ ms) (a, h) = drop-IsAscending n ms h

take-drop : (n : ℕ) (ms : List Incoming) → take n ms ++ drop n ms ≡ ms
take-drop zero ms = refl
take-drop (suc n) [] = refl
take-drop (suc n) (m ∷ ms) = rw (take-drop n ms) refl

-- What is left out is not newer than what is kept.
newer_kept :
    (n : ℕ) (ms : List Incoming)
    → IsAscending ms
    → All (λ o. All (λ m. o.message_id ≤ m.message_id) (drop n ms)) (take n ms)
newer_kept zero ms h = tt
newer_kept (suc n) [] h = tt
newer_kept (suc n) (m ∷ ms) (a, h) =
    (All-drop (λ x. m.message_id ≤ x.message_id) n ms a, newer_kept n ms h)

-- A message to select: not before the cutoff, and behind the checkpoint, if there is one.
abbrev pub IsDue : (now lookback_hours : ℕ) → Option ℕ → Incoming → Type 0
IsDue now lookback_hours checkpoint_id m =
    (now - lookback_hours * hour ≤ m.occurred_at)
    × ((c : ℕ) → checkpoint_id ≡ some c → c < m.message_id)

after-due : (o : Option ℕ) (i : ℕ) → (after o i ≡ true) ↔ ((c : ℕ) → o ≡ some c → c < i)
after-due none i = (λ h c e. absurd (cc), λ h. refl)
after-due (some c) i = (
  λ h c' e. let same : c ≡ c' = cc in rw (← same) (ground arith),
  λ h. let behind = h c refl in ground arith,
)

eligible-IsDue :
    (now hours : ℕ) (o : Option ℕ) (m : Incoming)
    → (eligible (now - hours * hour) o m ≡ true) ↔ IsDue now hours o m
eligible-IsDue now hours o m = (
  λ h.
      let (recent, behind) =
        both (leb (now - hours * hour) m.occurred_at) (after o m.message_id) h in
      (leb_le (now - hours * hour) m.occurred_at recent, (after-due o m.message_id).0 behind),
  λ (recent, behind).
      rw (le_leb (now - hours * hour) m.occurred_at recent, (after-due o m.message_id).1 behind)
        refl,
)
  where
    leb_le : (a b : ℕ) → leb a b ≡ true → a ≤ b
    leb_le a b h = ground arith

    le_leb : (a b : ℕ) → a ≤ b → leb a b ≡ true
    le_leb a b h = ground arith

All-take : (P : Incoming → Type 0) (n : ℕ) (ms : List Incoming) → All P ms → All P (take n ms)
All-take P zero ms h = tt
All-take P (suc n) [] h = tt
All-take P (suc n) (m ∷ ms) (p, h) = (p, All-take P n ms h)

ineligible_of : (cutoff : ℕ) → Option ℕ → List Incoming → List Incoming
ineligible_of cutoff o [] = []
ineligible_of cutoff o (m ∷ ms) =
    let rest = ineligible_of cutoff o ms in if eligible cutoff o m then rest else m ∷ rest

ineligible_not-IsDue :
    (now hours : ℕ) (o : Option ℕ) (ms : List Incoming)
    → All (λ m. ¬ IsDue now hours o m) (ineligible_of (now - hours * hour) o ms)
unfolding ineligible_of
ineligible_not-IsDue now hours o [] = tt
ineligible_not-IsDue now hours o (m ∷ ms) = elim (Bool-cases (eligible (now - hours * hour) o m)) [
  | inl yes' ↦ rw yes' (ineligible_not-IsDue now hours o ms)
  | inr no' ↦ rw no' (
    (λ due. let yes' = (eligible-IsDue now hours o m).1 due in absurd (cc)),
    ineligible_not-IsDue now hours o ms,
  )
]

middle : (x : Incoming) (xs ys : List Incoming) → Perm (xs ++ (x ∷ ys)) (x ∷ (xs ++ ys))
middle x [] ys = Perm.rfl
middle x (y ∷ xs) ys = Perm.trans (Perm.cons y (middle x xs ys)) (Perm.swap x y (xs ++ ys))

eligible-perm :
    (cutoff : ℕ) (o : Option ℕ) (ms : List Incoming)
    → Perm ms (eligible_of cutoff o ms ++ ineligible_of cutoff o ms)
unfolding ineligible_of
eligible-perm cutoff o [] = Perm.nil
eligible-perm cutoff o (m ∷ ms) = elim (Bool-cases (eligible cutoff o m)) [
  | inl yes' ↦ rw yes' (Perm.cons m (eligible-perm cutoff o ms))
  | inr no' ↦ rw no' (
      Perm.trans (Perm.cons m (eligible-perm cutoff o ms))
        (Perm.symm (middle m (eligible_of cutoff o ms) (ineligible_of cutoff o ms))))
]

placed-perm : (m : Incoming) (xs : List Incoming) → Perm (m ∷ xs) (placed m xs)
placed-perm m [] = Perm.rfl
placed-perm m (x ∷ xs) = elim (Bool-cases (leb m.message_id x.message_id)) [
  | inl before ↦ rw before Perm.rfl
  | inr after' ↦ rw after' (Perm.trans (Perm.swap x m xs) (Perm.cons x (placed-perm m xs)))
]

sorted-perm : (ms : List Incoming) → Perm ms (sorted ms)
sorted-perm [] = Perm.nil
sorted-perm (m ∷ ms) = Perm.trans (Perm.cons m (sorted-perm ms)) (placed-perm m (sorted ms))

-- With a bound of at least 1, `select_catch_up_messages` divides the messages into those left out,
-- those selected and those passed over, each of them once. Passed over is what is before the cutoff or
-- not behind the checkpoint, and only that; something is left out only if as many messages are selected
-- as the bound allows, and nothing left out is newer than anything selected; the selected, never more
-- than the bound, are in the order of their ids, the oldest first.
pub catch_up_selects :
    (messages : List Incoming) (now lookback_hours max_messages : ℕ) (checkpoint_id : Option ℕ)
    → 1 ≤ max_messages
    → let selected =
        select_catch_up_messages messages now lookback_hours max_messages checkpoint_id in
      (left_out : List Incoming) × (passed_over : List Incoming) × Perm messages
        ((left_out ++ selected) ++ passed_over)
      × All (IsDue now lookback_hours checkpoint_id) selected
      × All (IsDue now lookback_hours checkpoint_id) left_out
      × All (λ m. ¬ IsDue now lookback_hours checkpoint_id m) passed_over
      × (length selected ≤ max_messages)
      × ((left_out ≡ []) ⊎ (length selected ≡ max_messages))
      × All (λ o. All (λ m. o.message_id ≤ m.message_id) selected) left_out
      × IsAscending selected
unfolding select_catch_up_messages
catch_up_selects messages now hours n o bound =
    let cutoff = now - hours * hour in
    let chosen = eligible_of cutoff o messages in
    let all_sorted = sorted chosen in
    let k = length all_sorted - n in
    let positive : (n == 0) ≡ false = ground arith in
    let up = sorted-IsAscending chosen in
    let due = All-sorted (IsDue now hours o) chosen (
      All-eligible (IsDue now hours o) cutoff o messages
        (λ m h. (eligible-IsDue now hours o m).0 h)) in
    rw positive (
      take k all_sorted,
      ineligible_of cutoff o messages,
      subst (λ xs. Perm messages (xs ++ ineligible_of cutoff o messages))
          (sym (take-drop k all_sorted))
          (Perm.trans (eligible-perm cutoff o messages)
            (Perm.append_right (ineligible_of cutoff o messages) (sorted-perm chosen))),
      All-drop (IsDue now hours o) k all_sorted due,
      All-take (IsDue now hours o) k all_sorted due,
      ineligible_not-IsDue now hours o messages,
      omega (arith, length-drop k all_sorted),
      full_or_all n all_sorted,
      newer_kept k all_sorted up,
      drop-IsAscending k all_sorted up,
    )
  where
    full_or_all :
        (n : ℕ) (xs : List Incoming)
        → (take (length xs - n) xs ≡ []) ⊎ (length (drop (length xs - n) xs) ≡ n)
    full_or_all n xs = elim (Bool-cases (leb (length xs) n)) [
      | inl few ↦ let none_out : length xs - n ≡ 0 = ground arith in inl (rw none_out refl)
      | inr many ↦
          let more : n ≤ length xs = ground arith in
          inr (omega (arith, length-drop (length xs - n) xs))
    ]
