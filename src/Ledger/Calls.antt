-- ===== src/Ledger/Calls.antt =====
-- Any calls of the ledger's methods, one after another.
use mathlib.Core.List.{reverse}
use asl3_api.Prelude.{ℕ, String, Option, List, [], ◌∷◌, take, drop}
use asl3_api.Models.{Kind, Request}
use asl3_api.Ledger.{Env, Db, Changes}
use asl3_api.Ledger.Methods as Methods
use asl3_api.Ledger.Methods.{documents}
use asl3_api.Ledger.Persistence.{Extends, Extends-refl, Extends-trans}
use asl3_api.Ledger.Persistence.Methods.{
  get-Extends, select-Extends, find_idempotent-Extends, admit-Extends, update-Extends,
  start_dispatch-Extends, recover-Extends,
}

pub data Call : Type 0 where
  gets starts : (id : String) → Call
  lists : (limit offset : ℕ) → Call
  finds admits :
      (kind : Kind) (request : Request) (credential : String) (key : Option String) → Call
  updates : (id : String) (changes : Changes) → Call
  recovers : Call

module _ (env : Env) (node : String) where
  unfoldable pub perform : Call → Db → Db
  perform (gets id) db = (Methods.get env node id db).1
  perform (starts id) db = (Methods.start_dispatch env node id db).1
  perform (lists limit offset) db = (Methods.list env node limit offset db).1
  perform (finds kind request credential key) db =
      (Methods.find_idempotent env node kind request credential key db).1
  perform (admits kind request credential key) db =
      (Methods.admit env node kind request credential key db).1
  perform (updates id changes) db = (Methods.update env node id changes db).1
  perform recovers db = (Methods.recover env node db).1

  unfoldable pub performs : List Call → Db → Db
  unfolding perform
  performs [] db = db
  performs (call ∷ calls) db = performs calls (perform call db)

  perform-Extends : (call : Call) (db : Db) → Extends node db.rows (perform call db).rows
  unfolding perform Methods.list
  perform-Extends (gets id) db = get-Extends node env id db
  perform-Extends (starts id) db = start_dispatch-Extends node env id db
  perform-Extends (lists limit offset) db =
      select-Extends node env (λ rows. take limit (drop offset (reverse (documents node rows)))) db
  perform-Extends (finds kind request credential key) db =
      find_idempotent-Extends node env kind request credential key db
  perform-Extends (admits kind request credential key) db =
      admit-Extends node env kind request credential key db
  perform-Extends (updates id changes) db = update-Extends node env id changes db
  perform-Extends recovers db = recover-Extends node env db

  pub performs-Extends :
      (calls : List Call) (db : Db) → Extends node db.rows (performs calls db).rows
  unfolding performs
  performs-Extends [] db = Extends-refl node db.rows
  performs-Extends (call ∷ calls) db =
      Extends-trans node db.rows (perform call db).rows _ (perform-Extends call db)
        (performs-Extends calls (perform call db))
