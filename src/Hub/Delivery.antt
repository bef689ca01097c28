-- ===== src/Hub/Delivery.antt =====
-- ws-server.ts: whom im.send reaches, and in whose name.
use sman_server.Base.{
  String, ◌≡◌, true, false, Option, none, some, string_eq, option_eq, ◌⊎◌, if◌then◌else◌,
  or_default,
}
use Prim.Native.String.{◌++◌ as str_append}
use sman_server.Base.Texts.{is_empty, starts_with_text}
use sman_server.Im.Store.{MessageParams}
use sman_server.Im.Upserts.{Upserted}
use sman_server.Hub.Reach.{others, reachable, told}
use sman_server.Hub.Joins.{Joined}
use sman_server.Im.Cipher.{encrypt_im_message, decrypt_im_message}
use sman_server.Hub.Types.{AuthedClient, ImSend, im_message}
use sman_server.Hub.State.{Env, Hub, Outcome, returned, thrown, bad_json, members_of}
use sman_server.Hub.ImMessages.{spread}

module _ (env : Env) (client : AuthedClient) where
  -- The client itself, or one of its agents.
  abbrev pub IsOwn : String → Type 0
  IsOwn sender =
      (sender ≡ client.client_id)
      ⊎ (starts_with_text (str_append client.client_id "/") sender ≡ true)

  -- A hub that differs in the members and in the count of the draws only.
  abbrev Kept : Hub → Hub → Type 0
  Kept h h' = h' ≡ record h { im_room_members = h'.im_room_members; im_draws = h'.im_draws }

  -- The id of a message that has one is its own, and a draw changes nothing else.
  abbrev Named : String → Hub → String × Hub → Type 0
  Named id h (i, h') = (is_empty id ≡ false → i ≡ id) × (h' ≡ record h { im_draws = h'.im_draws })

  -- The hub after the message has been sent to the open sockets of the other members.
  abbrev pub all_told : MessageParams → Option String → Hub → Hub
  all_told q attachments h =
      told env (reachable env h.client_id_to_ws (others client.client_id (members_of q.room_id h)))
        (im_message (record {
          id = q.id;
          room_id = q.room_id;
          sender = q.sender;
          fields =
              encrypt_im_message env.cipher
                (record { content = some q.content; attachments = attachments });
          msg_type = or_default q.type "text";
          timestamp = q.timestamp;
          seq = or_default q.seq 0;
          mentioned_agents = q.mentioned_agents;
          quote_id = q.quote_id;
          status = q.status;
          session_id = q.session_id;
        }))
        h

  -- The attachments that are sent with a text of attachments.
  abbrev pub Rewrites : Option String → Option String → Type 0
  Rewrites none out = out ≡ none
  Rewrites (some text) out = if is_empty text then out ≡ none else (out ≡ env.reparse text)

  -- A message reaches all of these, or there are attachments and they do not parse.
  abbrev pub Spread : MessageParams → Hub → Outcome (Unit {0}) × Hub → Type 0
  Spread q h o =
      ((text : String) × (q.attachments ≡ some text)
        × (is_empty text ≡ false)
        × (env.reparse text ≡ none)
        × (o ≡ (thrown bad_json, h)))
      ⊎ ((attachments : Option String) × Rewrites q.attachments attachments
          × (o ≡ (returned tt, all_told q attachments h)))

  pub record Delivered (p : ImSend) (h : Hub) (o : Outcome (Unit {0}) × Hub) : Type 0 where
    pub params : MessageParams
    pub id : is_empty p.id ≡ false → params.id ≡ p.id
    pub room : params.room_id ≡ p.room_id
    pub own : IsOwn params.sender
    pub content : params.content ≡ or_default (decrypt_im_message env.cipher p.fields).content ""
    pub attachments : params.attachments ≡ (decrypt_im_message env.cipher p.fields).attachments
    -- The hub with the message stored and its sender among the members, and nothing sent yet.
    pub base : Hub
    pub stored : Upserted params h.im_db base.im_db
    pub joined : Joined env client p.room_id params.sender h base
    pub same_rest : base ≡ record h {
      im_db = base.im_db;
      im_room_members = base.im_room_members;
      im_draws = base.im_draws;
    }
    pub spread : Spread params base o
