-- ===== src/Events/Hub.antt =====
-- internal/events/hub.go. A client's channel is the list of its queued frames, oldest first; the
-- mutex makes each method one step. The map of clients is held newest first.
use Prim.Native.String.{String}
use doota.Prelude.{
  ℕ, suc, Bool, List, [], ◌∷◌, ◌++◌, Option, none, some, ◌==◌, ltb, if◌then◌else◌, length,
}
use doota.Store.Schema.{Payload}

-- `id` is 0 for a frame that was never persisted.
pub record Frame : Type 0 where
  pub id : ℕ
  pub type_name : String
  pub payload : Payload

abbrev pub subscriber_buffer : ℕ
subscriber_buffer = 512

pub record Client : Type 0 where
  pub id : ℕ
  pub frames : List Frame

pub record Hub : Type 0 where
  pub next : ℕ
  pub clients : List Client
  pub dropped : ℕ

unfoldable pub new_hub : Hub
new_hub = record { next = 0; clients = []; dropped = 0 }

unfoldable pub subscribe : Hub → ℕ × Hub
subscribe h =
    let id = suc h.next in
    (id, record h { next = id; clients = record { id = id; frames = [] } ∷ h.clients })

unfoldable pub remove_client : ℕ → List Client → List Client
remove_client id [] = []
remove_client id (c ∷ cs) = let rest = remove_client id cs in if c.id == id then rest else c ∷ rest

unfoldable pub unsubscribe : ℕ → Hub → Hub
unfolding remove_client
unsubscribe id h = record h { clients = remove_client id h.clients }

abbrev pub has_room : Client → Bool
has_room c = ltb (length c.frames) subscriber_buffer

-- The `select` with a `default`: a send that would block drops the frame.
unfoldable pub offer : Frame → Client → Client
offer f c = if has_room c then record c { frames = c.frames ++ f ∷ [] } else c

unfoldable pub offer_all : Frame → List Client → ℕ → List Client × ℕ
unfolding offer
offer_all f [] dropped = ([], dropped)
offer_all f (c ∷ cs) dropped =
    let (cs', d) = offer_all f cs (if has_room c then dropped else suc dropped) in
    (offer f c ∷ cs', d)

unfoldable pub publish : Frame → Hub → Hub
unfolding offer_all
publish f h =
    let (cs, d) = offer_all f h.clients h.dropped in record h { clients = cs; dropped = d }

-- The reader's side: a receive takes the oldest frame, and is `none` where it would wait.
unfoldable pub receive_client : ℕ → List Client → Option (Frame × List Client)
receive_client id [] = none
receive_client id (c ∷ cs) =
    let rest = receive_client id cs in
    if c.id == id
    then elim c.frames [ [] ↦ none | f ∷ fs ↦ some (f, record c { frames = fs } ∷ cs) ]
    else elim rest [ none ↦ none | some (f, cs') ↦ some (f, c ∷ cs') ]

unfoldable pub receive : ℕ → Hub → Option (Frame × Hub)
unfolding receive_client
receive id h = elim (receive_client id h.clients) [
  | none ↦ none
  | some (f, cs) ↦ some (f, record h { clients = cs })
]

-- The frames that wait for a client; `none` once it has left.
unfoldable pub queue_of : ℕ → List Client → Option (List Frame)
queue_of id [] = none
queue_of id (c ∷ cs) = let rest = queue_of id cs in if c.id == id then some c.frames else rest
