-- ===== src/Output/Faults.antt =====
-- liboutput/queue.cpp: states that the code does not handle: the first `QueueInsert`, and a URL that the
-- player was given and that is no longer in the queue.
use Prim.Native.Nat.{◌-◌}
use chorale.Base.{
  Bytes, same_text, ℕ, suc, ◌<◌, ◌≤◌, ◌≡◌, refl, ◌∙◌, ap, Bool, true, false, none, some, [], ◌∷◌,
  arith, length, get_elem?-none, not, ◌&&◌, add32, leb,
}
use chorale.Output.State.{Queue, World, set_url, set_next_url, announce}
use chorale.Output.Edit.{queue_insert, queue_remove, new_entry, insert_at}
use chorale.Output.Transport.{on_url, advance, mark_played, nonempty}
use chorale.Output.Marking.{mark_lem}
use chorale.Output.QueueRemove.{
  queue_removed, queue_remove-announce, length-remove_null, queue_removed-IsValid, current_before,
}
use chorale.Output.Valid.{IsValid, length-queue, queue-All}

-- `QueueInsert` at 0 in an empty queue leaves the current index past the one entry, and gives the player
-- no URL: the queue that it leaves is not a valid one.
pub queue_insert-empty :
    (w : World) (q : Queue) (d id : ℕ)
    → q.entries ≡ []
    → q.queue ≡ []
    → q.current_index ≡ 0
    → (q' : Queue) × (queue_insert w q (some d) id 0 ≡ some q')
      × (length q'.entries ≡ 1)
      × (q'.current_index ≡ 1)
      × (q'.calls ≡ q.calls)
      × (¬ IsValid q')
unfolding queue_insert insert_at announce set_url
queue_insert-empty w q d id e₁ e₂ e₃ = (
  record q { entries = new_entry (some d) id ∷ []; queue = 0 ∷ []; current_index = 1 },
  ground arith,
  refl,
  refl,
  refl,
  λ v. absurd (omega (arith, v.current)),
)

no_next :
    (w : World) (q : Queue)
    → leb (length q.entries) (add32 q.current_index 1) ≡ true
    → set_next_url w q ≡ some q
unfolding set_next_url
no_next w q past = rw past refl

-- With no entry left at the place after the current one, the announced next URL leads out of the queue.
on_url-past_end :
    (w : World) (url : Bytes) (q : Queue)
    → IsValid q
    → length q.entries ≤ add32 q.current_index 1
    → same_text url q.expected_url ≡ false
    → same_text url q.expected_next_url ≡ true
    → nonempty url ≡ true
    → on_url w url q ≡ none
unfolding on_url advance mark_played
on_url-past_end w url q v past other next some_url =
    rw
      (
        other,
        next,
        some_url,
        get_elem?-none q.queue (add32 q.current_index 1) (rw (length-queue v) past),
      )
      refl

announce-past :
    (w : World) (b : Bool) (q : Queue)
    → leb (length q.entries) (add32 q.current_index 1) ≡ true
    → announce w false b q ≡ some q
unfolding announce
announce-past w true q past = no_next w q past
announce-past w false q past = refl

-- Removing all that follows the current entry leaves the next URL announced: when the player then starts
-- it, `OnURL` reads past the end of the queue.
pub queue_remove-on_url-fault :
    (w : World) (url : Bytes) (q : Queue)
    → IsValid q
    → suc q.current_index < length q.entries
    → same_text url q.expected_url ≡ false
    → same_text url q.expected_next_url ≡ true
    → nonempty url ≡ true
    → (q' : Queue) × (queue_remove w q (suc q.current_index) (length q.entries) ≡ some q')
      × IsValid q'
      × (on_url w url q' ≡ none)
queue_remove-on_url-fault w url q v more other next some_url =
    let from = suc q.current_index in
    let to = length q.entries in
    let h : from ≤ to = omega arith in
    let same = length-queue v in
    let (marked, e, m) =
      mark_lem (to - from) from q.queue q.entries (omega (arith, same)) (queue-All v) in
    let (b, out) = queue_remove-announce w q from to marked h (omega (arith, same)) e in
    let gone = queue_removed-IsValid from to marked v h (omega arith) m in
    let index = current_before from to marked v h (omega arith) m (omega arith) in
    let shorter = length-remove_null from to marked v h (omega arith) m in
    let before : (not (leb to q.current_index) && leb from q.current_index) ≡ false =
      ground arith in
    let last : length (queue_removed q from to marked).entries ≡ suc q.current_index =
      unfold queue_removed in omega (arith, shorter) in
    let past : length (queue_removed q from to marked).entries
        ≤ add32 (queue_removed q from to marked).current_index 1 =
      rw (last, index) (omega (arith, v.fits)) in
    (
      queue_removed q from to marked,
      out
          ∙ ap (λ a. announce w a b (queue_removed q from to marked)) before
          ∙ announce-past w b _ (le-leb past),
      gone,
      on_url-past_end w url _ gone past (unfold queue_removed in other)
          (unfold queue_removed in next) some_url,
    )
  where
    le-leb : {a b : ℕ} → a ≤ b → leb a b ≡ true
    le-leb h = ground arith
