-- ===== src/Store/Flush.antt =====
-- How a write ends: rows flushed, then a value returned.
use connect_governance.Prelude.{◌≡◌, none, some, List, Error, Result, ok, err}
use connect_governance.Store.{Database, Session, Row, add_all, flush, pure, ◌>>◌}

module _ {F A : Type 0} (db : Database F) (rows : List (Row F)) (a : A) (s : Session db) where
  -- The rows in one flush, and then the value.
  abbrev pub written : Result A × Session db
  written = (flush db rows >> pure a) s

  pub written_added : {t : Session db} → add_all db rows s ≡ some t → written ≡ (ok a, t)
  unfolding flush
  written_added e = rw (flush, e)

  pub written_refused : add_all db rows s ≡ none → written ≡ (err Error.integrity_error, s)
  unfolding flush
  written_refused e = rw (flush, e)
