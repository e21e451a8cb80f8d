-- ===== src/Metadata/Store/Texts.antt =====
-- The texts of the errors of `event` in event-listener/src/metadata/metadata_type.rs.
use event_listener.Prelude.{ℕ, ◌≡◌, ap, sym, ◌∙◌, String, Option, none, some}
use event_listener.Outcome.{err, ok_or}
use event_listener.Error.{MetadataError, event_not_found, show_metadata_error}
use event_listener.Metadata.Store.{Metadata, EventMetadata, event}

ok_or-eq-err : (o : Option EventMetadata) (x y : MetadataError) → ok_or o x ≡ err y → y ≡ x
ok_or-eq-err none x y h = cc
ok_or-eq-err (some m) x y h = cc

-- The text does not tell which event was not found: where `event` fails for two variants of a pallet,
-- the texts of the two errors are the same.
pub event-show_metadata_error :
    (show : ℕ → String) (m : Metadata) (p v w : ℕ) (x y : MetadataError)
    → event m p v ≡ err x
    → event m p w ≡ err y
    → show_metadata_error show x ≡ show_metadata_error show y
unfolding event show_metadata_error
event-show_metadata_error show m p v w x y e f =
    ap (show_metadata_error show) (ok_or-eq-err _ (event_not_found p v) x e)
    ∙ sym (ap (show_metadata_error show) (ok_or-eq-err _ (event_not_found p w) y f))
