-- ===== src/Channel/Session.antt =====
-- `websocket_miniverse_updates_handler` of app/api/v1/websockets.py: the first event, and then the messages
-- of the channel until the socket is closed.
use miniverse_backend.Base.{
  ◌≡◌, Bool, true, false, Bool-cases, Option-cases, none, some, List, [], ◌∷◌, ◌++◌, Text, ◌==◌,
  eq_iff, exists, All, Error, Action, ◌>>=◌, pure, or_raise, first, arith, inl, inr,
}
use miniverse_backend.Models.{MiniverseUserRole, Tables, miniverses_roles}
use miniverse_backend.Events.{MiniverseEvent}
use miniverse_backend.Channel.{Context, names_user, handle_miniverse_channel_message}
use miniverse_backend.Channel.Initial.{Controllers, SyncEventItem, send_init_data}
use miniverse_backend.Channel.Delivery.{is_member, concerns, handle_miniverse_channel_message_sends}

-- The messages with what the database holds of the user's roles when each one comes.
abbrev pub Messages : Type 0
Messages = List (List MiniverseUserRole × MiniverseEvent)

unfoldable pub deliver : Messages → Context → Context
deliver [] ctx = ctx
deliver ((fresh, event) ∷ messages) ctx =
    deliver messages (handle_miniverse_channel_message fresh event ctx)

-- What the socket gets: the first event, and the events that are passed on. Messages that come before
-- the subscription begins are not among the `messages`.
module _ {S : Type 0} (controllers : Controllers S) (t : Tables) where
  unfoldable pub updates_handler :
      Text → Messages → Action S (List SyncEventItem × List MiniverseEvent)
  unfolding deliver
  updates_handler user_id messages = do
    user ← or_raise (first (λ u. u.id == user_id) t.users) Error.attribute_error
    let roles = miniverses_roles t user
    init ← send_init_data controllers t roles
    pure (init, (deliver messages (record { user_id = user.id; roles = roles; sent = [] })).sent)

-- Is the event about the miniverse?
abbrev pub is_about : Text → MiniverseEvent → Bool
is_about i e = elim e.miniverse_id [ none ↦ false | some j ↦ j == i ]

abbrev pub Strange : Text → Context → Type 0
Strange i ctx = (is_member ctx.roles (some i) ≡ false) × (exists (is_about i) ctx.sent ≡ false)

exists-snoc :
    (i : Text) (es : List MiniverseEvent) (e : MiniverseEvent)
    → exists (is_about i) es ≡ false
    → is_about i e ≡ false
    → exists (is_about i) (es ++ e ∷ []) ≡ false
exists-snoc i [] e h g = ground arith
exists-snoc i (x ∷ es) e h g = ground (arith, exists-snoc i es e)

about-miniverse : (i : Text) (e : MiniverseEvent) → is_about i e ≡ true → e.miniverse_id ≡ some i
about-miniverse i e h = elim (Option-cases e.miniverse_id) [
  | inl r ↦ ground (arith, r, h)
  | inr (j, r) ↦ ground (arith, r, h, eq_iff j i)
]

-- An event about a miniverse that is strange to the user does not concern him.
not_concerned :
    (i : Text) (fresh : List MiniverseUserRole) (e : MiniverseEvent) (ctx : Context)
    → is_member fresh (some i) ≡ false
    → is_member ctx.roles (some i) ≡ false
    → is_about i e ≡ true
    → concerns fresh e ctx ≡ false
not_concerned i fresh e ctx f r h = ground (arith, about-miniverse i e h, f, r)

roles-Strange :
    (i : Text) (fresh : List MiniverseUserRole) (e : MiniverseEvent) (ctx : Context)
    → is_member fresh (some i) ≡ false
    → is_member ctx.roles (some i) ≡ false
    → is_member (handle_miniverse_channel_message fresh e ctx).roles (some i) ≡ false
unfolding handle_miniverse_channel_message
roles-Strange i fresh e ctx f r = elim (Bool-cases (names_user ctx.user_id e.updated_user_ids)) [
  | inl named ↦ rw named f
  | inr other ↦ rw other r
]

handle-Strange :
    (i : Text) (fresh : List MiniverseUserRole) (e : MiniverseEvent) (ctx : Context)
    → is_member fresh (some i) ≡ false
    → Strange i ctx
    → Strange i (handle_miniverse_channel_message fresh e ctx)
handle-Strange i fresh e ctx f (r, s) = (
  roles-Strange i fresh e ctx f r,
  rw (handle_miniverse_channel_message_sends fresh e ctx) (elim (Bool-cases (is_about i e)) [
    | inl about ↦ rw (not_concerned i fresh e ctx f r about) s
    | inr other ↦ elim (Bool-cases (concerns fresh e ctx)) [
      | inl sent ↦ rw sent (exists-snoc i ctx.sent e s other)
      | inr kept ↦ rw kept s
    ]
  ]),
)

-- A user who has no role in a miniverse when the WebSocket opens, and none in the database whenever a message
-- comes, gets no event about that miniverse, whatever is published.
pub deliver_private :
    (i : Text) (messages : Messages) (ctx : Context)
    → is_member ctx.roles (some i) ≡ false
    → exists (is_about i) ctx.sent ≡ false
    → All (λ (m : List MiniverseUserRole × MiniverseEvent). is_member m.0 (some i) ≡ false) messages
    → exists (is_about i) (deliver messages ctx).sent ≡ false
unfolding deliver
deliver_private i [] ctx r s h = s
deliver_private i ((fresh, e) ∷ messages) ctx r s h =
    let next = handle-Strange i fresh e ctx h.0 (r, s) in
    deliver_private i messages (handle_miniverse_channel_message fresh e ctx) next.0 next.1 h.1
