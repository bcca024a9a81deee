-- ===== src/Editor/Store.antt =====
-- The save indicator of frontend/web-app/src/editor/store.ts, with the callbacks by which
-- EditorProvider.tsx connects it to the autosave manager.
use wedding_saas.Editor.Autosave.{
  on_failed, on_saved, on_begin_save, has_field, Callback, add_field,
}
use wedding_saas.Base.{is_nil, if◌then◌else◌, not, some, none, keep, Option, ℕ, List, [], ◌∷◌}

pub data SaveStatus : Type 0 where
  idle saving saved error : SaveStatus

pub record Store : Type 0 where
  pub dirty_fields : List ℕ
  pub save_status : SaveStatus
  -- the fields of `failure`
  pub failure : Option (List ℕ)

-- What an edit makes of the status and of the failure.
abbrev pub after_edit : SaveStatus → SaveStatus
after_edit SaveStatus.error = idle
after_edit SaveStatus.saved = idle
after_edit SaveStatus.idle = idle
after_edit SaveStatus.saving = saving

abbrev pub failure_after_edit : SaveStatus → Option (List ℕ) → Option (List ℕ)
failure_after_edit SaveStatus.error failure = none
failure_after_edit _ failure = failure

-- `setField`
unfoldable pub set_field : ℕ → Store → Store
set_field f s = record {
  dirty_fields = add_field f s.dirty_fields;
  save_status = after_edit s.save_status;
  failure = failure_after_edit s.save_status s.failure;
}

-- `beginSave`
unfoldable pub begin_save : List ℕ → Store → Store
begin_save [] s = s
begin_save (f ∷ fields) s = record s { save_status = saving; failure = none }

-- `markSaved`
unfoldable pub mark_saved : List ℕ → Store → Store
mark_saved fields s =
    let dirty = keep (λ g. not (has_field g fields)) s.dirty_fields in
    record {
      dirty_fields = dirty;
      save_status = if is_nil dirty then saved else idle;
      failure = none;
    }

-- `markFailed`
unfoldable pub mark_failed : List ℕ → Store → Store
mark_failed fields s = record s { save_status = error; failure = some fields }

-- The callbacks of EditorProvider.tsx
unfoldable pub tell : Callback → Store → Store
unfolding begin_save mark_saved mark_failed
tell (on_begin_save fields) s = begin_save fields s
tell (on_saved fields) s = mark_saved fields s
tell (on_failed fields) s = mark_failed fields s

unfoldable pub tell_all : List Callback → Store → Store
unfolding tell
tell_all [] s = s
tell_all (c ∷ cs) s = tell_all cs (tell c s)
