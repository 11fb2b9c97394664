-- ===== src/Streams/Chat/Ready.antt =====
-- The table of choices as a stream starts it and keeps it, and the chunks with the roles.
use vfront.Common.{
  ℕ, zero, suc, ◌+◌, ◌≤◌, ◌<◌, [], ◌∷◌, Bool, true, ◌≡◌, refl, sym, ap, inl, inr, Bool-cases, ltb,
  ◌==◌, all, arith,
}
use vfront.Streams.Choices.{role, Choice, Choices, new_choice, lookup, store}
use vfront.Streams.Choices.Laws.{keys, is_ascending, has_key, is_ascending-store, has_key-store}
use vfront.Streams.Chat.{roles, fresh_choices}
use vfront.Streams.Chat.Alone.{is_of, for_choice}

-- The choices are in order, and those that were asked for are there.
pub record IsReady (n : ℕ) (l : Choices) : Type 0 where
  pub order : is_ascending (keys l) ≡ true
  pub asked : (i : ℕ) → i < n → has_key i (keys l) ≡ true

fresh-beyond :
    (has : Bool) (i j n : ℕ) → j < i → all (λ k. ltb j k) (keys (fresh_choices has i n)) ≡ true
unfolding fresh_choices
fresh-beyond has i j zero h = refl
fresh-beyond has i j (suc n) h =
    let p : j < 1 + i = omega arith in ground (arith, fresh-beyond has (1 + i) j n p, h)

fresh-is_ascending : (has : Bool) (i n : ℕ) → is_ascending (keys (fresh_choices has i n)) ≡ true
unfolding fresh_choices
fresh-is_ascending has i zero = refl
fresh-is_ascending has i (suc n) =
    let p : i < 1 + i = omega arith in
    ground (arith, fresh-beyond has (1 + i) i n p, fresh-is_ascending has (1 + i) n)

fresh-has_key :
    (has : Bool) (i j n : ℕ) → i ≤ j → j < i + n → has_key j (keys (fresh_choices has i n)) ≡ true
unfolding fresh_choices
fresh-has_key has i j zero h k = absurd (omega arith)
fresh-has_key has i j (suc n) h k = elim (Bool-cases (j == i)) [
  | inl here ↦ rw here
  | inr other ↦ rw (other, fresh-has_key has (1 + i) j n (ground arith) (omega arith))
]

pub fresh-IsReady : (has : Bool) (n : ℕ) → IsReady n (fresh_choices has 0 n)
fresh-IsReady has n = record {
  order = fresh-is_ascending has 0 n;
  asked = λ i h. fresh-has_key has 0 i n (omega arith) (omega (arith, h));
}

pub store-IsReady : (n i : ℕ) (c : Choice) (l : Choices) → IsReady n l → IsReady n (store i c l)
store-IsReady n i c l ready = record {
  order = is_ascending-store i c l ready.order;
  asked = λ k h. ground (arith, has_key-store i k c l, ready.asked k h);
}

pub lookup-fresh :
    (has : Bool) (i j n : ℕ) → lookup j (new_choice has) (fresh_choices has i n) ≡ new_choice has
unfolding lookup fresh_choices
lookup-fresh has i j zero = refl
lookup-fresh has i j (suc n) = ground (arith, lookup-fresh has (1 + i) j n)

roles-beyond : (i j n : ℕ) → j < i → for_choice j (roles i n) ≡ []
unfolding roles is_of
roles-beyond i j zero h = refl
roles-beyond i j (suc n) h =
    let p : j < 1 + i = omega arith in ground (arith, roles-beyond (1 + i) j n p, h)

pub roles_lem : (i j n : ℕ) → i ≤ j → j < i + n → for_choice j (roles i n) ≡ role j ∷ []
unfolding roles is_of
roles_lem i j zero h k = absurd (omega arith)
roles_lem i j (suc n) h k = elim (Bool-cases (j == i)) [
  | inl here ↦
      let same : j ≡ i = ground (arith, here) in
      let p : j < 1 + i = omega (arith, same) in
      rw (here, roles-beyond (1 + i) j n p) (ap (λ k. role k ∷ []) (sym same))
  | inr other ↦ rw (other, roles_lem (1 + i) j n (ground arith) (omega arith))
]
