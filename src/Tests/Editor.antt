-- ===== src/Tests/Editor.antt =====
-- A photo moved from the second place to the fourth, and back; fields that are typed in while
-- requests are out; and photos that are arranged twice.
use wedding_saas.Editor.Sender.{
  order_answered, run_sender, after_sends-Latest, hears, flush_sender, Latest, sends, queue_order,
  Scheduled, opened_sender, happen_sender, arranges, after_sends, SenderEvent,
}
use wedding_saas.Editor.Saved.{
  saves_all, answers, flushes, edits, EditorEvent, after_all, happen, opened,
}
use wedding_saas.Editor.Store.{tell_all, set_field, Store, SaveStatus, idle}
use wedding_saas.Editor.Autosave.{
  all_fields, requeue, answer_request, add_pending, run, flush, queue, edit, Answer,
}
use wedding_saas.Editor.Drained.{flush-saves, saves}
use wedding_saas.Base.{false, length, none, ◌/◌, refl, ◌≡◌, ℕ, List, [], ◌∷◌}
use wedding_saas.Editor.Reorder.{move_item}

abbrev photos : List ℕ
photos = 11 ∷ 12 ∷ 13 ∷ 14 ∷ []

moved_photos : move_item photos 1 3 ≡ 11 ∷ 13 ∷ 14 ∷ 12 ∷ []
unfolding move_item
moved_photos = refl

abbrev one_group : ℕ → ℕ
one_group f = f / 10

abbrev blank : ℕ → ℕ
blank f = 0

abbrev typed : List EditorEvent
typed =
    edits 11 5
    ∷ flushes
    ∷ edits 21 7
    ∷ answers Answer.lost_answer
    ∷ flushes
    ∷ answers Answer.saved
    ∷ answers Answer.saved
    ∷ []

saves_all_example : (after_all one_group typed (opened blank)).server 21 ≡ 7
unfolding after_all happen edit queue flush run add_pending requeue answer_request
saves_all_example = saves_all one_group blank typed tt refl refl 21

abbrev half_typed : List EditorEvent
half_typed =
    edits 11 5 ∷ edits 21 7 ∷ flushes ∷ answers Answer.lost_request ∷ answers Answer.saved ∷ []

flush-saves_example :
    let s = after_all one_group half_typed (opened blank) in
    let t = saves (length s.manager.pending) (flush s).0 in
    (t.manager.pending ≡ []) × (t.manager.in_flight ≡ none) × ((f : ℕ) → t.server f ≡ s.document f)
unfolding after_all happen edit queue flush run add_pending requeue answer_request
flush-saves_example = flush-saves one_group blank half_typed tt refl

abbrev untouched : Store
untouched = record { dirty_fields = []; save_status = idle; failure = none }

-- A field that is typed in again while its request is out: the indicator says `saved`, and the field
-- still waits.
saved_too_early :
    let s1 = edit one_group 11 5 (opened blank) in
    let (s2, begun) = flush s1 in
    let s3 = edit one_group 11 6 s2 in
    let (s4, done) = answer_request Answer.saved s3 in
    let store = tell_all done (set_field 11 (tell_all begun (set_field 11 untouched))) in
    (store.save_status ≡ SaveStatus.saved) × (s4.server 11 ≡ 5) × (s4.document 11 ≡ 6)
unfolding edit queue flush run add_pending answer_request set_field tell_all all_fields
saved_too_early = (refl, refl, refl)

-- A group that fails before one that is saved: the failure and its retry vanish from the indicator,
-- with the failed field still queued and no timer running.
failure_forgotten :
    let s1 = edit one_group 21 7 (edit one_group 11 5 (opened blank)) in
    let (s2, begun) = flush s1 in
    let (s3, failed) = answer_request Answer.lost_request s2 in
    let (s4, done) = answer_request Answer.saved s3 in
    let store =
      tell_all done (tell_all failed (tell_all begun (set_field 21 (set_field 11 untouched)))) in
    (store.save_status ≡ SaveStatus.idle)
    × (store.failure ≡ none)
    × (s4.manager.timer ≡ false)
    × (s4.server 11 ≡ 0)
unfolding edit queue flush run add_pending requeue answer_request set_field tell_all all_fields
failure_forgotten = (refl, refl, refl, refl)

-- Two arrangements, the second while the first is out, and what is left when both are answered.
abbrev arranged : List SenderEvent
arranged =
    arranges (2 ∷ 1 ∷ 3 ∷ [])
    ∷ sends
    ∷ arranges (2 ∷ 3 ∷ 1 ∷ [])
    ∷ sends
    ∷ hears Answer.lost_answer
    ∷ hears Answer.saved
    ∷ []

after_sends-Latest_example :
    let s = after_sends arranged (opened_sender (1 ∷ 2 ∷ 3 ∷ [])) in
    Scheduled s.pending s.timer s.in_flight s.again × Latest s.shown s.pending s.in_flight s.server
after_sends-Latest_example =
    after_sends-Latest (1 ∷ 2 ∷ 3 ∷ []) arranged (tt, (tt, (tt, (tt, (tt, (tt, tt))))))

sends_last_order : (after_sends arranged (opened_sender (1 ∷ 2 ∷ 3 ∷ []))).server ≡ 2 ∷ 3 ∷ 1 ∷ []
unfolding after_sends happen_sender queue_order flush_sender run_sender order_answered
sends_last_order = refl
