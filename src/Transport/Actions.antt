-- ===== src/Transport/Actions.antt =====
-- What an action has written, when it has returned and when it has raised.
use asl3_api.Prelude.{ℕ, String, Option, [], ◌∷◌, ◌++◌, map, Dict, ◌≡◌, ◌⊎◌, refl, inl, inr}
use asl3_api.Errors.{Exception, Result, err}
use asl3_api.Transport.Frame.{split_lines}
use asl3_api.Transport.Session.{Session, header, payload, await_response}
use asl3_api.Transport.Client.{Peer, Login, action}
use asl3_api.Transport.Framing.{sent, HasUnbrokenNames, Crossed, send_cases}

-- An action is one payload more, or none. With the payload, whose lines are one for each field and the
-- empty line that ends a frame, the action returns or raises what the frames that follow make of it;
-- with a barrier, the barrier returned, and the session had not crossed one before. Without, it
-- raised. The fields' names have no line break.
pub action_cases :
    (peer : Peer) (login : Login) (k : ℕ) (fields : Dict String)
    (before_write : Option (Result (Unit {0}))) (s : Session)
    → HasUnbrokenNames (sent (peer.action_id k) fields)
    → (((action peer login k fields before_write s).0
          ≡ await_response 100 (peer.action_id k) (peer.frames k))
        × ((action peer login k fields before_write s).1.written
            ≡ s.written ++ payload (sent (peer.action_id k) fields) ∷ [])
        × (split_lines (payload (sent (peer.action_id k) fields))
            ≡ map header (sent (peer.action_id k) fields) ++ "" ∷ "" ∷ [])
        × Crossed before_write s (action peer login k fields before_write s).1)
      ⊎ ((e : Exception) × ((action peer login k fields before_write s).0 ≡ err e)
          × ((action peer login k fields before_write s).1.written ≡ s.written))
unfolding action
action_cases peer login k fields before_write s names =
    elim (send_cases (peer.action_id k) fields before_write s names) [
      | inl (done, wrote, lines, crossed) ↦
          inl (rw done refl, rw done wrote, lines, rw done crossed)
      | inr (e, raised, kept) ↦ inr (e, rw raised refl, rw raised kept)
    ]
