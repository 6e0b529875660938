-- ===== src/Socket/Chat.antt =====
-- pkg/socket/handler.go: chat messages, the commands and the urls of images in them.
pub mod Media
mod Tests
use streaming_server.Base.{
  ℕ, zero, suc, ◌+◌, ◌-◌, Bool, true, false, ◌||◌, List, [], ◌∷◌, Option, none, some, if◌then◌else◌,
  ◌==◌, length, take, Outcome, ok, err, panic, diverges,
}
use streaming_server.Base.Text.{Str, codes}
use streaming_server.Base.Split.{split, has_prefix}
use streaming_server.Base.Dict.{lookup}
use streaming_server.Connections.{namespace}
use streaming_server.Socket.{
  Server, Handled, Sent, to, all, SocketError, no_message, not_text, system_message, chat_error,
  command_error, chatmessage,
}
use streaming_server.Socket.Requests.{Field, missing, other, text}
use streaming_server.Commands.Handler.{CommandError}

-- ParseCommandMessage indexes the first byte of the text, which is a panic if there is none.
unfoldable pub parse_command_message : Field → Outcome SocketError (Option Str)
parse_command_message missing = err no_message
parse_command_message other = err not_text
parse_command_message (text []) = panic
parse_command_message (text (c ∷ s)) = if c == 47 then ok (some s) else ok none

-- The ending of an image at the start of the text.
ending : Str → Option ℕ
ending s =
    if has_prefix s (codes ".jpg") || has_prefix s (codes ".png") || has_prefix s (codes ".gif")
    then some 4
    else if has_prefix s (codes ".jpeg")
    then some 5
    else none

-- Up to the end of the last ending before a space: `[^ ]+` takes as much as it can.
unfoldable pub last_ending : Str → Option ℕ
unfolding ending
last_ending [] = none
last_ending (c ∷ s) =
    let later = last_ending s in
    if c == 32 then none else elim later [ some n ↦ some (suc n) | none ↦ ending (c ∷ s) ]

space_after : ℕ → Str → ℕ
space_after n [] = n
space_after zero (c ∷ s) = if c == 32 then 1 else zero
space_after (suc n) (c ∷ s) = suc (space_after n s)

-- A byte that is no space and then, later, an ending; `n` bytes stand before it.
body_at : ℕ → Str → Option ℕ
body_at n [] = none
body_at n (c ∷ s) =
    if c == 32 then none else elim (last_ending s) [ none ↦ none | some k ↦ some (n + suc k) ]

after_scheme : ℕ → Str → Option ℕ
unfolding body_at
after_scheme zero s = body_at zero s
after_scheme (suc n) [] = none
after_scheme (suc n) (c ∷ s) = elim (after_scheme n s) [ none ↦ none | some k ↦ some (suc k) ]

-- A match of `(http(s)?://[^ ]+\.(jpg|png|gif|jpeg))( )?` at the start of the text.
unfoldable pub match_length : Str → Option ℕ
unfolding after_scheme space_after
match_length s =
    let scheme =
      if has_prefix s (codes "https://")
      then 8
      else if has_prefix s (codes "http://")
      then 7
      else 0 in
    if scheme == 0
    then none
    else elim (after_scheme scheme s) [ none ↦ none | some n ↦ some (space_after n s) ]

-- The matches, and what is left of the text; `skip` bytes belong to the last match.
unfoldable pub media_from : ℕ → Str → List Str × Str
media_from skip [] = ([], [])
media_from (suc skip) (c ∷ s) = media_from skip s
media_from zero (c ∷ s) = elim (match_length (c ∷ s)) [
  | none ↦ let (urls, left) = media_from zero s in (urls, c ∷ left)
  | some n ↦ let (urls, left) = media_from (n - 1) s in (take n (c ∷ s) ∷ urls, left)
]

unfoldable pub parse_message_media : Field → Outcome SocketError (List Str × Str)
parse_message_media missing = err no_message
parse_message_media other = err not_text
parse_message_media (text s) = ok (media_from zero s)

root_of : List Str → Str
root_of [] = []
root_of (s ∷ ss) = s

args_of : List Str → List Str
args_of [] = []
args_of (s ∷ ss) = ss

-- The result of a command, or its error, is sent to the client, unless it is empty.
replied : Str → Server × Outcome CommandError Str → Handled
replied conn (s, ok []) = (s, [], ok tt)
replied conn (s, ok (c ∷ cs)) = (s, to conn (system_message (c ∷ cs)) ∷ [], ok tt)
replied conn (s, err e) = (s, to conn (command_error e) ∷ [], ok tt)
replied conn (s, panic) = (s, [], panic)
replied conn (s, diverges) = (s, [], diverges)

-- BroadcastAll panics where the client has no namespace. An error is only logged.
said : Server → Str → Outcome SocketError (List Str × Str) → Handled
said s conn (ok (urls, left)) = elim (namespace s.connections conn) [
  | none ↦ (s, [], panic)
  | some _ ↦ (s, all conn (chatmessage left urls) ∷ [], ok tt)
]
said s conn (err e) = (s, [], ok tt)
said s conn panic = (s, [], panic)
said s conn diverges = (s, [], diverges)

-- The callback of "request_chatmessage"; `execute` is ExecuteCommand for the client.
module _ (execute : Str → List Str → Server → Server × Outcome CommandError Str) where
  chat : Server → Str → Field → Outcome SocketError (Option Str) → Handled
  unfolding replied said root_of args_of
  chat s conn field (ok (some command)) =
      let segments = split 32 command in
      replied conn (execute (root_of segments) (args_of segments) s)
  chat s conn field (ok none) = said s conn (parse_message_media field)
  chat s conn field (err e) = (s, to conn (chat_error e) ∷ [], ok tt)
  chat s conn field panic = (s, [], panic)
  chat s conn field diverges = (s, [], diverges)

  unfoldable pub request_chatmessage : Server → Str → Field → Handled
  unfolding chat
  request_chatmessage s conn field = elim (lookup conn s.clients_by_id) [
    | none ↦ (s, [], ok tt)
    | some _ ↦ chat s conn field (parse_command_message field)
  ]
