-- ===== src/Output/Valid.antt =====
-- The invariant of `Queue` that `CheckQueue` of queue.cpp's tests looks for, and what it gives: the
-- methods that hand a URL to the player never fault, and change none of the lists.
use Prim.Native.Nat.{◌-◌}
use mathlib.Core.Option.{some-injective}
use chorale.Base.{
  c_str, All, take, drop, subst, add32, inl, inr, ℕ, zero, suc, ◌<◌, ◌≤◌, ◌≡◌, ◌≢◌, refl, ◌∙◌, ap,
  Bool, true, false, none, some, List, [], ◌∷◌, ◌++◌, arith, length, get_elem?, get_elem?-lt,
  SameItems, range_from, count-range_from, get_elem?-count, u32, leb, length-range_from,
  SameItems-length, Option-cases, Bool-cases,
}
use chorale.Output.State.{
  Queue, Entry, World, entry_at, set_url, set_next_url, announce, player_url, player_next_url,
}

abbrev pub HasDb : Entry → Type 0
HasDb e = e.db ≢ none

-- Each entry stands in the queue exactly once, the current index is in range (0 in an empty queue),
-- every entry has a database, and the number of entries fits `unsigned int`.
pub record IsValid (q : Queue) : Type 0 where
  pub order : SameItems q.queue (range_from 0 (length q.entries))
  pub current : q.current_index ≤ length q.entries - 1
  pub dbs : All HasDb q.entries
  pub fits : length q.entries < u32

-- What the methods that talk to the player leave alone.
pub record SameLists (q q' : Queue) : Type 0 where
  pub same_current : q'.current_index ≡ q.current_index
  pub same_queue : q'.queue ≡ q.queue
  pub same_entries : q'.entries ≡ q.entries
  pub same_shuffled : q'.shuffled ≡ q.shuffled
  pub same_state : q'.state ≡ q.state

pub SameLists-refl : (q : Queue) → SameLists q q
SameLists-refl q = record {
  same_current = refl;
  same_queue = refl;
  same_entries = refl;
  same_shuffled = refl;
  same_state = refl;
}

pub SameLists-trans : {q r s : Queue} → SameLists q r → SameLists r s → SameLists q s
SameLists-trans h k = record {
  same_current = k.same_current ∙ h.same_current;
  same_queue = k.same_queue ∙ h.same_queue;
  same_entries = k.same_entries ∙ h.same_entries;
  same_shuffled = k.same_shuffled ∙ h.same_shuffled;
  same_state = k.same_state ∙ h.same_state;
}

pub SameLists-IsValid : {q r : Queue} → SameLists q r → IsValid q → IsValid r
SameLists-IsValid h v = record {
  order = λ a. rw (h.same_queue, h.same_entries) (v.order a);
  current = rw (h.same_current, h.same_entries) v.current;
  dbs = rw h.same_entries v.dbs;
  fits = rw h.same_entries v.fits;
}

pub All-get_elem? {ℓ κ} :
    {A : Type ℓ} (P : A → Type κ) (xs : List A) (i : ℕ) {a : A}
    → All P xs
    → get_elem? xs i ≡ some a
    → P a
All-get_elem? P [] i h e = cc
All-get_elem? P (x ∷ xs) zero h e = subst P (some-injective _ _ e) h.0
All-get_elem? P (x ∷ xs) (suc i) h e = All-get_elem? P xs i h.1 e

pub length-queue : {q : Queue} → IsValid q → length q.queue ≡ length q.entries
length-queue {q} v =
    SameItems-length q.queue (range_from 0 (length q.entries)) v.order
    ∙ length-range_from 0 (length q.entries)

pub queue-lt :
    {q : Queue} → IsValid q → (i : ℕ) {k : ℕ} → get_elem? q.queue i ≡ some k → k < length q.entries
queue-lt {q} v i {k} e =
    ground (arith, get_elem?-count q.queue i e, v.order k, count-range_from k 0 (length q.entries))

-- The entry at every place of a valid queue is there, and has a database.
pub entry_at-IsValid :
    {q : Queue}
    → IsValid q
    → (i : ℕ) → i < length q.entries
    → (e : Entry) × (d : ℕ) × (entry_at q i ≡ some e) × (e.db ≡ some d)
unfolding entry_at
entry_at-IsValid {q} v i h =
    let (k, pk) = get_elem?-lt q.queue i (rw (length-queue v) h) in
    let (e, pe) = get_elem?-lt q.entries k (queue-lt v i pk) in
    elim (Option-cases e.db) [
      | inl null ↦ absurd (All-get_elem? HasDb q.entries k v.dbs pe null)
      | inr (d, pd) ↦ (e, d, rw pk pe, pd)
    ]

pub set_url-IsValid :
    (w : World) {q : Queue} → IsValid q → (q' : Queue) × (set_url w q ≡ some q') × SameLists q q'
unfolding set_url
set_url-IsValid w {q} v = elim (Bool-cases (leb (length q.entries) q.current_index)) [
  | inl past ↦ (q, rw past refl, SameLists-refl q)
  | inr within ↦
      let (e, d, pe, pd) = entry_at-IsValid v q.current_index (ground arith) in
      (
        record q {
          expected_url = c_str (w.url d e.id);
          calls = q.calls ++ player_url (w.url d e.id) (w.metadata d e.id) ∷ [];
        },
        rw (within, pe, pd) refl,
        record {
          same_current = refl;
          same_queue = refl;
          same_entries = refl;
          same_shuffled = refl;
          same_state = refl;
        },
      )
]

pub set_next_url-IsValid :
    (w : World) {q : Queue}
    → IsValid q
    → (q' : Queue) × (set_next_url w q ≡ some q') × SameLists q q'
unfolding set_next_url
set_next_url-IsValid w {q} v =
    elim (Bool-cases (leb (length q.entries) (add32 q.current_index 1))) [
      | inl past ↦ (q, rw past refl, SameLists-refl q)
      | inr within ↦
          let (e, d, pe, pd) = entry_at-IsValid v (add32 q.current_index 1) (ground arith) in
          (
            record q {
              expected_next_url = c_str (w.url d e.id);
              calls = q.calls ++ player_next_url (w.url d e.id) (w.metadata d e.id) ∷ [];
            },
            rw (within, pe, pd) refl,
            record {
              same_current = refl;
              same_queue = refl;
              same_entries = refl;
              same_shuffled = refl;
              same_state = refl;
            },
          )
    ]

-- Handing URLs to the player succeeds in a valid queue, and changes no list.
pub announce-IsValid :
    (w : World) (set set_next : Bool) {q : Queue}
    → IsValid q
    → (q' : Queue) × (announce w set set_next q ≡ some q') × IsValid q' × SameLists q q'
unfolding announce
announce-IsValid w false false {q} v = (q, refl, v, SameLists-refl q)
announce-IsValid w false true {q} v =
    let (q', e, s) = set_next_url-IsValid w v in (q', e, SameLists-IsValid s v, s)
announce-IsValid w true false {q} v =
    let (q', e, s) = set_url-IsValid w v in (q', rw e refl, SameLists-IsValid s v, s)
announce-IsValid w true true {q} v =
    let (q₁, e₁, s₁) = set_url-IsValid w v in
    let (q₂, e₂, s₂) = set_next_url-IsValid w (SameLists-IsValid s₁ v) in
    let s = SameLists-trans s₁ s₂ in (q₂, rw (e₁, e₂) refl, SameLists-IsValid s v, s)

pub All-take {ℓ κ} :
    {A : Type ℓ} (P : A → Type κ) (n : ℕ) (xs : List A) → All P xs → All P (take n xs)
All-take P zero xs h = tt
All-take P (suc n) [] h = tt
All-take P (suc n) (x ∷ xs) h = (h.0, All-take P n xs h.1)

pub All-drop {ℓ κ} :
    {A : Type ℓ} (P : A → Type κ) (n : ℕ) (xs : List A) → All P xs → All P (drop n xs)
All-drop P zero xs h = h
All-drop P (suc n) [] h = tt
All-drop P (suc n) (x ∷ xs) h = All-drop P n xs h.1

pub SameLists-entry_at : {q r : Queue} → SameLists q r → (i : ℕ) → entry_at r i ≡ entry_at q i
unfolding entry_at
SameLists-entry_at h i = rw (h.same_queue, h.same_entries) refl

-- The entry at the current index is the same one.
pub SameLists-current :
    {q r : Queue} → SameLists q r → entry_at r r.current_index ≡ entry_at q q.current_index
SameLists-current {q} {r} h = ap (entry_at r) h.same_current ∙ SameLists-entry_at h q.current_index

pub All-of_get_elem? {ℓ κ} :
    {A : Type ℓ} (P : A → Type κ) (xs : List A)
    → ((i : ℕ) (a : A) → get_elem? xs i ≡ some a → P a)
    → All P xs
All-of_get_elem? P [] h = tt
All-of_get_elem? P (x ∷ xs) h = (h 0 x refl, All-of_get_elem? P xs (λ i. h (suc i)))

-- Every index that the queue holds is one of an entry.
pub queue-All : {q : Queue} → IsValid q → All (λ k. k < length q.entries) q.queue
queue-All {q} v = All-of_get_elem? _ q.queue (λ i a e. queue-lt v i e)
