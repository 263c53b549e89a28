-- ===== src/Onchain/PoolSync/Holders.antt =====
-- src/onchain/poolSync.ts: the holders that the transfers touch, each once.
use team_index.Base.{
  ◌≡◌, refl, sym, List, [], ◌∷◌, Bool, true, false, ◌||◌, Option, arith, any, All, Text, text_eq,
  text_eq→eq, text_eq_refl, to_lower, Bool-cases, inl, inr,
}
use team_index.Onchain.PoolSync.Logs.{Log, Transfer, is_after, wanted}
use team_index.Onchain.PoolSync.Touched.{
  Holder, put_holder, newer, is_holder, add_touched_holder, touched_by, touched_holders,
}

-- Touched holders have distinct keys, each the address in lower case.
abbrev pub is_key : Text → List Holder → Bool
is_key key hs = any (λ h. text_eq h.key key) hs

abbrev pub Keyed : List Holder → Type 0
Keyed [] = Unit {0}
Keyed (h ∷ hs) = (h.key ≡ to_lower h.address) × (is_key h.key hs ≡ false) × Keyed hs

text_eq-flip : (s t : Text) → text_eq s t ≡ false → text_eq t s ≡ false
text_eq-flip s t h = elim (Bool-cases (text_eq t s)) [
  | inl e ↦ absurd (cc (h, text_eq_refl s, text_eq→eq t s e))
  | inr e ↦ e
]

newer-key :
    (b : Bool) (address : Text) (ev : Log Transfer) (h : Holder)
    → h.key ≡ to_lower address
    → h.key ≡ to_lower h.address
    → ((newer b address ev h).key ≡ h.key)
      × ((newer b address ev h).key ≡ to_lower (newer b address ev h).address)
newer-key true address ev h e k = (sym e, refl)
newer-key false address ev h e k = (refl, k)

put_holder-is_key :
    (key address : Text) (ev : Log Transfer) (hs : List Holder)
    → Keyed hs
    → is_key key (put_holder address ev hs) ≡ (is_key key hs || text_eq (to_lower address) key)
put_holder-is_key key address ev [] k = ground arith
put_holder-is_key key address ev (h ∷ hs) (e, n, k) =
    elim (Bool-cases (text_eq h.key (to_lower address))) [
      | inl a ↦
          let same = text_eq→eq h.key (to_lower address) a in
          let kept = (newer-key (is_after ev h.event) address ev h same e).0 in
          rw (a, kept, sym same) (ground arith)
      | inr a ↦ rw a (ground (arith, put_holder-is_key key address ev hs k))
    ]

put_holder-Keyed :
    (address : Text) (ev : Log Transfer) (hs : List Holder)
    → Keyed hs
    → Keyed (put_holder address ev hs)
put_holder-Keyed address ev [] k = (refl, refl, tt)
put_holder-Keyed address ev (h ∷ hs) (e, n, k) =
    elim (Bool-cases (text_eq h.key (to_lower address))) [
      | inl a ↦
          let same = text_eq→eq h.key (to_lower address) a in
          let kept = newer-key (is_after ev h.event) address ev h same e in
          rw a (kept.1, rw kept.0 n, k)
      | inr a ↦
          let other = text_eq-flip h.key (to_lower address) a in
          rw a (
            e,
            rw (put_holder-is_key h.key address ev hs k) (ground (arith, n, other)),
            put_holder-Keyed address ev hs k,
          )
    ]

touch-Keyed :
    (address : Text) (ev : Log Transfer) (hs : List Holder)
    → Keyed hs
    → Keyed (add_touched_holder address ev hs)
unfolding add_touched_holder
touch-Keyed address ev hs k = elim (Bool-cases (is_holder address)) [
  | inl e ↦ rw e (put_holder-Keyed address ev hs k)
  | inr e ↦ rw e k
]

touch-kept :
    (key address : Text) (ev : Log Transfer) (hs : List Holder)
    → Keyed hs
    → is_key key hs ≡ true
    → is_key key (add_touched_holder address ev hs) ≡ true
unfolding add_touched_holder
touch-kept key address ev hs k h = elim (Bool-cases (is_holder address)) [
  | inl e ↦ rw (e, put_holder-is_key key address ev hs k, h) refl
  | inr e ↦ rw e h
]

touch-added :
    (address : Text) (ev : Log Transfer) (hs : List Holder)
    → Keyed hs
    → is_holder address ≡ true
    → is_key (to_lower address) (add_touched_holder address ev hs) ≡ true
unfolding add_touched_holder
touch-added address ev hs k h =
    rw (h, put_holder-is_key (to_lower address) address ev hs k)
      (ground (arith, text_eq_refl (to_lower address)))

-- A transfer's addresses, but the zero address, are among the touched holders.
abbrev pub Touched : Log Transfer → List Holder → Type 0
Touched ev hs =
    (is_holder ev.args.from ≡ true → is_key (to_lower ev.args.from) hs ≡ true)
    × (is_holder ev.args.to ≡ true → is_key (to_lower ev.args.to) hs ≡ true)

touched_by-Keyed :
    (b : Bool) (ev : Log Transfer) (hs : List Holder) → Keyed hs → Keyed (touched_by b ev hs)
unfolding touched_by
touched_by-Keyed true ev hs k =
    touch-Keyed ev.args.to ev (add_touched_holder ev.args.from ev hs)
      (touch-Keyed ev.args.from ev hs k)
touched_by-Keyed false ev hs k = k

touched_by-kept :
    (b : Bool) (ev : Log Transfer) (key : Text) (hs : List Holder)
    → Keyed hs
    → is_key key hs ≡ true
    → is_key key (touched_by b ev hs) ≡ true
unfolding touched_by
touched_by-kept true ev key hs k h =
    touch-kept key ev.args.to ev (add_touched_holder ev.args.from ev hs)
      (touch-Keyed ev.args.from ev hs k) (touch-kept key ev.args.from ev hs k h)
touched_by-kept false ev key hs k h = h

touched_by-Touched :
    (ev : Log Transfer) (hs : List Holder) → Keyed hs → Touched ev (touched_by true ev hs)
unfolding touched_by
touched_by-Touched ev hs k =
    let hs' = add_touched_holder ev.args.from ev hs in
    let k' = touch-Keyed ev.args.from ev hs k in
    (
      λ h.
          touch-kept (to_lower ev.args.from) ev.args.to ev hs' k'
            (touch-added ev.args.from ev hs k h),
      touch-added ev.args.to ev hs' k',
    )

module _ (only : Option (List Text)) where
  pub touched_holders-Keyed :
      (evs : List (Log Transfer)) (hs : List Holder)
      → Keyed hs
      → Keyed (touched_holders only evs hs)
  unfolding touched_holders
  touched_holders-Keyed [] hs k = k
  touched_holders-Keyed (ev ∷ evs) hs k =
      let b = wanted only ev.transaction_hash in
      touched_holders-Keyed evs (touched_by b ev hs) (touched_by-Keyed b ev hs k)

  touched_holders-kept :
      (evs : List (Log Transfer)) (key : Text) (hs : List Holder)
      → Keyed hs
      → is_key key hs ≡ true
      → is_key key (touched_holders only evs hs) ≡ true
  unfolding touched_holders
  touched_holders-kept [] key hs k h = h
  touched_holders-kept (ev ∷ evs) key hs k h =
      let b = wanted only ev.transaction_hash in
      touched_holders-kept evs key (touched_by b ev hs) (touched_by-Keyed b ev hs k)
        (touched_by-kept b ev key hs k h)

  pub touched_holders-Touched :
      (evs : List (Log Transfer)) (hs : List Holder)
      → Keyed hs
      → All
          (λ ev. wanted only ev.transaction_hash ≡ true → Touched ev (touched_holders only evs hs))
          evs
  unfolding touched_holders
  touched_holders-Touched [] hs k = tt
  touched_holders-Touched (ev ∷ evs) hs k =
      let b = wanted only ev.transaction_hash in
      let hs' = touched_by b ev hs in
      let k' = touched_by-Keyed b ev hs k in
      (
        λ w.
            let t : Touched ev hs' = rw w (touched_by-Touched ev hs k) in
            (
              λ h. touched_holders-kept evs (to_lower ev.args.from) hs' k' (t.0 h),
              λ h. touched_holders-kept evs (to_lower ev.args.to) hs' k' (t.1 h),
            ),
        touched_holders-Touched evs hs' k',
      )
