-- ===== src/Events/Delivery.antt =====
-- What a subscriber of the hub receives.
use doota.Prelude.{
  ℕ, zero, suc, ◌+◌, ◌-◌, ◌≤◌, ◌<◌, ◌≡◌, refl, ap, sym, ◌∙◌, List, [], ◌∷◌, ◌++◌, Option, none,
  some, arith, ◌==◌, ltb, if◌then◌else◌, length, length-append, take_append_take, take,
  append_assoc, append-nil, Bool-cases, inl, inr, Option-cases,
}
use doota.Events.Hub.{
  Frame, Client, Hub, subscriber_buffer, subscribe, unsubscribe, remove_client, has_room, offer,
  offer_all, publish, receive_client, receive, queue_of,
}

-- Client ids fall along the list from `next`, and no queue is longer than its buffer.
abbrev pub Clients : ℕ → List Client → Type 0
Clients n [] = Unit {0}
Clients n (c ∷ cs) =
    (c.id ≤ n) × (0 < c.id) × (length c.frames ≤ subscriber_buffer) × Clients (c.id - 1) cs

abbrev pub IsBounded : Hub → Type 0
IsBounded h = Clients h.next h.clients

Clients-mono : (m n : ℕ) (cs : List Client) → m ≤ n → Clients m cs → Clients n cs
Clients-mono m n [] h b = tt
Clients-mono m n (c ∷ cs) h b = (omega arith, b.1, b.2, b.3)

offer-fits :
    (f : Frame) (c : Client)
    → length c.frames ≤ subscriber_buffer
    → length (offer f c).frames ≤ subscriber_buffer
unfolding offer
offer-fits f c h = ground (arith, length-append c.frames (f ∷ []))

offer-id : (f : Frame) (c : Client) → (offer f c).id ≡ c.id
unfolding offer
offer-id f c = ground arith

offer_all-Clients :
    (f : Frame) (n d : ℕ) (cs : List Client) → Clients n cs → Clients n (offer_all f cs d).0
unfolding offer_all
offer_all-Clients f n d [] b = tt
offer_all-Clients f n d (c ∷ cs) b =
    rw (offer-id f c) (b.0, b.1, offer-fits f c b.2, offer_all-Clients f (c.id - 1) _ cs b.3)

remove_client-Clients :
    (id n : ℕ) (cs : List Client) → Clients n cs → Clients n (remove_client id cs)
unfolding remove_client
remove_client-Clients id n [] b = tt
remove_client-Clients id n (c ∷ cs) b = elim (Bool-cases (c.id == id)) [
  | inl hit ↦ rw hit (
      Clients-mono (c.id - 1) n (remove_client id cs) (omega arith)
        (remove_client-Clients id (c.id - 1) cs b.3))
  | inr miss ↦ rw miss (b.0, b.1, b.2, remove_client-Clients id (c.id - 1) cs b.3)
]

-- The clients after a receive, whether a frame was there or not.
abbrev after_receive : List Client → Option (Frame × List Client) → List Client
after_receive cs none = cs
after_receive cs (some (_, cs')) = cs'

receive_client-Clients :
    (id n : ℕ) (cs : List Client)
    → Clients n cs
    → Clients n (after_receive cs (receive_client id cs))
unfolding receive_client
receive_client-Clients id n [] b = tt
receive_client-Clients id n (c ∷ cs) b = ground (arith, receive_client-Clients id (c.id - 1) cs b.3)

-- What the server and the browsers do to the hub.
pub data HubCall : Type 0 where
  subscribes : HubCall
  unsubscribes receives : ℕ → HubCall
  publishes : Frame → HubCall

unfoldable pub hub_step : Hub → HubCall → Hub
hub_step h subscribes = (subscribe h).1
hub_step h (unsubscribes id) = unsubscribe id h
hub_step h (receives id) = elim (receive id h) [ none ↦ h | some (_, h') ↦ h' ]
hub_step h (publishes f) = publish f h

unfoldable pub hub_run : Hub → List HubCall → Hub
hub_run h [] = h
hub_run h (c ∷ cs) = hub_run (hub_step h c) cs

-- The frames that wait for clients, and those that were dropped.
unfoldable pub queued : List Client → ℕ
queued [] = 0
queued (c ∷ cs) = length c.frames + queued cs

publish-queued_lem :
    (f : Frame) (cs : List Client) (d : ℕ)
    → queued (offer_all f cs d).0 + (offer_all f cs d).1 ≡ queued cs + d + length cs
unfolding offer_all queued offer
publish-queued_lem f [] d = omega arith
publish-queued_lem f (c ∷ cs) d = ground (
  arith,
  length-append c.frames (f ∷ []),
  publish-queued_lem f cs (if has_room c then d else suc d),
)

take-nil : (n : ℕ) → take {A = Frame} n [] ≡ []
take-nil zero = refl
take-nil (suc n) = refl

-- A full queue refuses the frame, and one with room takes it.
offered :
    (n : ℕ) (q : List Frame) (f : Frame)
    → length q ≤ n
    → (if ltb (length q) n then q ++ f ∷ [] else q) ≡ take n (q ++ f ∷ [])
offered zero [] f h = refl
offered zero (x ∷ q) f h = absurd (omega arith)
offered (suc n) [] f h = ground (arith, take-nil n)
offered (suc n) (x ∷ q) f h = ground (arith, offered n q f)

take-all : (n : ℕ) (xs : List Frame) → length xs ≤ n → take n xs ≡ xs
take-all zero [] h = refl
take-all zero (x ∷ xs) h = absurd (omega arith)
take-all (suc n) [] h = refl
take-all (suc n) (x ∷ xs) h = ap (◌∷◌ x) (take-all n xs (omega arith))

take-le : (n : ℕ) (xs : List Frame) → length (take n xs) ≤ n
take-le zero xs = omega arith
take-le (suc n) [] = omega arith
take-le (suc n) (x ∷ xs) = omega (arith, take-le n xs)

offer-frames :
    (f : Frame) (c : Client)
    → length c.frames ≤ subscriber_buffer
    → (offer f c).frames ≡ take subscriber_buffer (c.frames ++ f ∷ [])
unfolding offer
offer-frames f c b = elim (Bool-cases (has_room c)) [
  | inl room ↦ rw room (rw room at (offered subscriber_buffer c.frames f b))
  | inr full ↦ rw full (rw full at (offered subscriber_buffer c.frames f b))
]

offer_all-queue :
    (f : Frame) (id d : ℕ) (cs : List Client) (q : List Frame)
    → length q ≤ subscriber_buffer
    → queue_of id cs ≡ some q
    → queue_of id (offer_all f cs d).0 ≡ some (take subscriber_buffer (q ++ f ∷ []))
unfolding offer_all queue_of
offer_all-queue f id d [] q b h = ground arith
offer_all-queue f id d (c ∷ cs) q b h = elim (Bool-cases (c.id == id)) [
  | inl hit ↦
      let same : c.frames ≡ q = ground arith in
      rw (offer-id f c, hit) (rw (offer-frames f c (rw same b), same) refl)
  | inr miss ↦
      rw (offer-id f c, miss)
        (offer_all-queue f id (if has_room c then d else suc d) cs q b (rw miss at h))
]

-- Publishing a batch of frames.
unfoldable pub publish_all : List Frame → Hub → Hub
publish_all [] h = h
publish_all (f ∷ fs) h = publish_all fs (publish f h)

-- Every step of the hub keeps each queue within its buffer and the client ids distinct.
pub hub_step-IsBounded : (h : Hub) (c : HubCall) → IsBounded h → IsBounded (hub_step h c)
unfolding hub_step subscribe unsubscribe receive publish
hub_step-IsBounded h subscribes b =
    (omega arith, omega arith, omega arith, Clients-mono h.next _ h.clients (omega arith) b)
hub_step-IsBounded h (unsubscribes id) b = remove_client-Clients id h.next h.clients b
hub_step-IsBounded h (receives id) b = elim (Option-cases (receive_client id h.clients)) [
  | inl e ↦ rw (e, receive, hub_step) b
  | inr ((f, cs), e) ↦
      rw (e, receive, hub_step) (rw e at (receive_client-Clients id h.next h.clients b))
]
hub_step-IsBounded h (publishes f) b = offer_all-Clients f h.next h.dropped h.clients b

-- A hub that started empty is bounded after any sequence of calls.
pub hub_run-IsBounded : (h : Hub) (cs : List HubCall) → IsBounded h → IsBounded (hub_run h cs)
unfolding hub_run
hub_run-IsBounded h [] b = b
hub_run-IsBounded h (c ∷ cs) b = hub_run-IsBounded (hub_step h c) cs (hub_step-IsBounded h c b)

-- What a publication puts in the queues and what it drops add up to one frame for each client.
pub publish-accounts :
    (f : Frame) (h : Hub)
    → queued (publish f h).clients + (publish f h).dropped
      ≡ queued h.clients + h.dropped + length h.clients
unfolding publish
publish-accounts f h = publish-queued_lem f h.clients h.dropped

-- A client that reads nothing holds the oldest 512 of what it held and what was published since,
-- in the order of publication.
pub publish_all-queue_of :
    (fs : List Frame) (h : Hub) (id : ℕ) (q : List Frame)
    → length q ≤ subscriber_buffer
    → queue_of id h.clients ≡ some q
    → queue_of id (publish_all fs h).clients ≡ some (take subscriber_buffer (q ++ fs))
unfolding publish_all publish
publish_all-queue_of [] h id q b e =
    e ∙ ap some (sym (ap (take subscriber_buffer) (append-nil q) ∙ take-all subscriber_buffer q b))
publish_all-queue_of (f ∷ fs) h id q b e =
    publish_all-queue_of fs (publish f h) id (take subscriber_buffer (q ++ f ∷ []))
      (take-le subscriber_buffer (q ++ f ∷ [])) (offer_all-queue f id h.dropped h.clients q b e)
    ∙ ap some (
        take_append_take subscriber_buffer (q ++ f ∷ []) fs
        ∙ ap (take subscriber_buffer) (append_assoc q (f ∷ []) fs))

receive_client-queue_of :
    (id : ℕ) (cs : List Client) (f : Frame) (q : List Frame)
    → queue_of id cs ≡ some (f ∷ q)
    → (cs' : List Client) × (receive_client id cs ≡ some (f, cs')) × (queue_of id cs' ≡ some q)
unfolding receive_client queue_of
receive_client-queue_of id [] f q e = cc
receive_client-queue_of id (c ∷ cs) f q e = elim (Bool-cases (c.id == id)) [
  | inl hit ↦ (record c { frames = q } ∷ cs, ground arith, ground arith)
  | inr miss ↦
      let (cs', taken, left) = receive_client-queue_of id cs f q (rw miss at e) in
      (c ∷ cs', rw (miss, taken) refl, rw miss left)
]

-- A receive takes the oldest queued frame, and leaves the rest in order.
pub receive-queue_of :
    (h : Hub) (id : ℕ) (f : Frame) (q : List Frame)
    → queue_of id h.clients ≡ some (f ∷ q)
    → (h' : Hub) × (receive id h ≡ some (f, h')) × (queue_of id h'.clients ≡ some q)
unfolding receive
receive-queue_of h id f q e =
    let (cs', taken, left) = receive_client-queue_of id h.clients f q e in
    (record h { clients = cs' }, rw (taken, receive) refl, left)
