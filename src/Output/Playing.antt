-- ===== src/Output/Playing.antt =====
-- liboutput/queue.cpp: `SetPlayState`, `Seek` and the callbacks `OnURL` and `OnPlayState` on a valid queue.
use chorale.Base.{
  leb, Option-cases, c_str, ◌++◌, All, Bytes, same_text, ℕ, zero, suc, ◌+◌, ◌<◌, ◌≡◌, refl, sym,
  ◌∙◌, ap, true, false, some, List, [], ◌∷◌, arith, length, get_elem?, get_elem?-lt, set,
  length-set, add32, ltb, ◌==◌, if◌then◌else◌, Bool-cases, inl, inr, get_elem?-set_self,
  lt_of_get_elem?,
}
use mathlib.Core.Option.{some-injective}
use chorale.Output.State.{
  set_next_url, player_next_url, Queue, Entry, World, Call, PlayState, play, pause, stop,
  set_played, entry_at, player_state, observer_time_code,
}
use chorale.Output.Transport.{tell, set_play_state, seek, on_url, advance, mark_played, nonempty}
use chorale.Output.Valid.{
  IsValid, SameLists, HasDb, All-get_elem?, length-queue, queue-lt, set_next_url-IsValid,
  set_url-IsValid, SameLists-IsValid, SameLists-refl, SameLists-current, SameLists-trans,
}

pub tell-SameLists : (q : Queue) (c : Call) → SameLists q (tell q c)
tell-SameLists q c = record {
  same_current = refl;
  same_queue = refl;
  same_entries = refl;
  same_shuffled = refl;
  same_state = refl;
}

-- `SetPlayState` succeeds on a valid queue, and changes no list.
pub set_play_state-IsValid :
    (w : World) (s : PlayState) {q : Queue}
    → IsValid q
    → (q' : Queue) × (set_play_state w s q ≡ some q') × SameLists q q'
unfolding set_play_state
set_play_state-IsValid w pause {q} v = (tell q (player_state pause), refl, tell-SameLists q _)
set_play_state-IsValid w stop {q} v = (tell q (player_state stop), refl, tell-SameLists q _)
set_play_state-IsValid w play {q} v = elim (Bool-cases (length q.entries == 0)) [
  | inl nothing ↦ (q, rw nothing refl, SameLists-refl q)
  | inr something ↦
      let (q₁, e₁, s₁) = set_url-IsValid w v in
      let (q₂, e₂, s₂) = set_next_url-IsValid w (SameLists-IsValid s₁ v) in
      (
        tell q₂ (player_state play),
        rw (something, e₁, e₂) refl,
        SameLists-trans (SameLists-trans s₁ s₂) (tell-SameLists q₂ _),
      )
]

All-set :
    {A : Type 0} (P : A → Type 0) (xs : List A) (i : ℕ) (a : A)
    → All P xs
    → P a
    → All P (set xs i a)
All-set P [] i a h p = tt
All-set P (x ∷ xs) zero a h p = (p, h.1)
All-set P (x ∷ xs) (suc i) a h p = (h.0, All-set P xs i a h.1 p)

-- The queue after `flags |= PLAYED` on the entry with index `k`.
unfoldable pub marked_played : Queue → ℕ → Entry → Queue
marked_played q k e = record q { entries = set q.entries k (set_played e) }

pub mark_played-IsValid :
    {q : Queue} (i : ℕ)
    → IsValid q
    → i < length q.entries
    → (k : ℕ) × (e : Entry) × (get_elem? q.queue i ≡ some k)
      × (get_elem? q.entries k ≡ some e)
      × (mark_played i q ≡ some (marked_played q k e))
      × IsValid (marked_played q k e)
unfolding mark_played marked_played
mark_played-IsValid {q} i v h =
    let (k, pk) = get_elem?-lt q.queue i (rw (length-queue v) h) in
    let lt = queue-lt v i pk in
    let (e, pe) = get_elem?-lt q.entries k lt in
    (
      k,
      e,
      pk,
      pe,
      rw (pk, pe) refl,
      record {
        order = λ a. rw (length-set q.entries k (set_played e)) (v.order a);
        current = rw (length-set q.entries k (set_played e)) v.current;
        dbs =
            All-set HasDb q.entries k (set_played e) v.dbs
              (All-get_elem? HasDb q.entries k v.dbs pe);
        fits = rw (length-set q.entries k (set_played e)) v.fits;
      },
    )

entry_at-some :
    (q : Queue) (i k : ℕ) {e : Entry}
    → get_elem? q.queue i ≡ some k
    → get_elem? q.entries k ≡ some e
    → entry_at q i ≡ some e
unfolding entry_at
entry_at-some q i k pk pe = rw pk pe

entry_at-marked_played :
    (q : Queue) (k : ℕ) {e : Entry}
    → get_elem? q.queue q.current_index ≡ some k
    → get_elem? q.entries k ≡ some e
    → entry_at (marked_played q k e) (marked_played q k e).current_index ≡ some (set_played e)
unfolding marked_played entry_at
entry_at-marked_played q k {e} pk pe =
    rw pk (get_elem?-set_self q.entries k (set_played e) (lt_of_get_elem? q.entries k pe))

-- The new current index of `Seek`.
unfoldable pub at_index : ℕ → Queue → Queue
at_index index q = if ltb index (length q.queue) then record q { current_index = index } else q

at_index-IsValid : (index : ℕ) {q : Queue} → IsValid q → IsValid (at_index index q)
unfolding at_index
at_index-IsValid index {q} v = elim (Bool-cases (ltb index (length q.queue))) [
  | inl here ↦ rw here (record {
    order = v.order;
    current = ground (arith, length-queue v);
    dbs = v.dbs;
    fits = v.fits;
  })
  | inr past ↦ rw past v
]

at_index-current :
    (index : ℕ) (q : Queue)
    → (at_index index q).current_index
      ≡ (if ltb index (length q.queue) then index else q.current_index)
unfolding at_index
at_index-current index q = elim (Bool-cases (ltb index (length q.queue))) [
  | inl here ↦ rw here refl
  | inr past ↦ rw past refl
]

at_index-entries : (index : ℕ) (q : Queue) → (at_index index q).entries ≡ q.entries
unfolding at_index
at_index-entries index q = elim (Bool-cases (ltb index (length q.queue))) [
  | inl here ↦ rw here refl
  | inr past ↦ rw past refl
]

-- `Seek` on a valid queue succeeds and leaves a valid queue with the same entries; the current index
-- is the given one if that is in range, and unchanged otherwise.
pub seek-IsValid :
    (w : World) (index : ℕ) (q : Queue)
    → IsValid q
    → (q' : Queue) × (seek w index q ≡ some q')
      × IsValid q'
      × (q'.entries ≡ q.entries)
      × (q'.current_index ≡ (if ltb index (length q.queue) then index else q.current_index))
unfolding seek at_index
seek-IsValid w index q v =
    let v₁ = at_index-IsValid index v in
    let (q₂, e₂, s₂) = set_url-IsValid w v₁ in
    let (q₃, e₃, s₃) = set_next_url-IsValid w (SameLists-IsValid s₂ v₁) in
    let v₃ = SameLists-IsValid s₃ (SameLists-IsValid s₂ v₁) in
    let (q₄, e₄, s₄) = set_play_state-IsValid w q.state v₃ in
    let s = SameLists-trans (SameLists-trans s₂ s₃) s₄ in
    (
      q₄,
      rw (e₂, e₃) e₄,
      SameLists-IsValid s v₁,
      s.same_entries ∙ at_index-entries index q,
      s.same_current ∙ at_index-current index q,
    )

-- The queue as it is when the expected next URL has started to play.
unfoldable pub advanced : Queue → Queue
advanced q = record q {
  current_index = add32 q.current_index 1;
  expected_url = q.expected_next_url;
  expected_next_url = [];
}

advanced-IsValid :
    {q : Queue} → IsValid q → suc q.current_index < length q.entries → IsValid (advanced q)
unfolding advanced
advanced-IsValid {q} v h = record {
  order = v.order;
  current = omega (arith, v.fits);
  dbs = v.dbs;
  fits = v.fits;
}

-- `SetNextURL` does not change the URL that is expected to play now.
set_next_url-expected_url :
    (w : World) (q : Queue) {q' : Queue}
    → set_next_url w q ≡ some q'
    → q'.expected_url ≡ q.expected_url
unfolding set_next_url
set_next_url-expected_url w q {q'} h =
    elim (Bool-cases (leb (length q.entries) (add32 q.current_index 1))) [
      | inl past ↦
          let same : some q ≡ some q' = ground (arith, h, past) in
          ap (λ (x : Queue). x.expected_url) (sym (some-injective _ _ same))
      | inr within ↦ elim (Option-cases (entry_at q (add32 q.current_index 1))) [
        | inl off ↦ absurd (ground (arith, h, within, off))
        | inr (e, there) ↦ elim (Option-cases e.db) [
          | inl unset ↦ absurd (ground (arith, h, within, there, unset))
          | inr (d, given) ↦
              let next : Queue = record q {
                expected_next_url = c_str (w.url d e.id);
                calls = q.calls ++ player_next_url (w.url d e.id) (w.metadata d e.id) ∷ [];
              } in
              let same : some next ≡ some q' = ground (arith, h, within, there, given) in
              ap (λ (x : Queue). x.expected_url) (sym (some-injective _ _ same))
        ]
      ]
    ]

-- When, in a valid queue with an entry after the current one, the player starts a URL that is not empty, is the one
-- announced as the next and is not the one expected to play now: the queue stays valid, moves on by one place, flags the
-- entry there as played, and then expects that URL as the one to play now.
pub on_url-next :
    (w : World) (url : Bytes) (q : Queue)
    → IsValid q
    → suc q.current_index < length q.entries
    → same_text url q.expected_url ≡ false
    → same_text url q.expected_next_url ≡ true
    → nonempty url ≡ true
    → (q' : Queue) × (e : Entry) × (on_url w url q ≡ some q')
      × IsValid q'
      × (q'.current_index ≡ q.current_index + 1)
      × (q'.queue ≡ q.queue)
      × (same_text url q'.expected_url ≡ true)
      × (entry_at q (q.current_index + 1) ≡ some e)
      × (entry_at q' q'.current_index ≡ some (set_played e))
unfolding on_url advance advanced
on_url-next w url q v h other next some_url =
    let v' = advanced-IsValid v h in
    let index = add32 q.current_index 1 in
    let one : index ≡ q.current_index + 1 = omega (arith, v.fits) in
    let (k, e, pk, pe, done, v'') = mark_played-IsValid index v' (omega (arith, v.fits)) in
    let heard = tell-SameLists (marked_played (advanced q) k e) (observer_time_code index 0) in
    let (q', out, s) = set_next_url-IsValid w (SameLists-IsValid heard v'') in
    let all = SameLists-trans heard s in
    let expected : q'.expected_url ≡ q.expected_next_url =
      set_next_url-expected_url w _ out ∙ unfold marked_played in refl in
    (
      q',
      e,
      rw (other, next, some_url, done) out,
      SameLists-IsValid all v'',
      all.same_current ∙ unfold marked_played in one,
      all.same_queue ∙ unfold marked_played in refl,
      ap (same_text url) expected ∙ next,
      ap (entry_at q) (sym one) ∙ entry_at-some q index k pk pe,
      SameLists-current all ∙ entry_at-marked_played (advanced q) k pk pe,
    )
