-- ===== src/Socket/Chat/Tests.antt =====
-- pkg/socket/handler.go: a message with the url of an image, and the theorem at it.
use streaming_server.Base.{[], ◌∷◌, ◌≡◌, refl, ok, panic}
use streaming_server.Base.Text.{codes}
use streaming_server.Base.Split.{has_prefix}
use streaming_server.Socket.Requests.{text}
use streaming_server.Socket.Chat.{
  parse_message_media, parse_command_message, media_from, match_length, last_ending,
}

image :
    parse_message_media (text (codes "see http://a.b/c.jpg now"))
    ≡ ok (codes "http://a.b/c.jpg " ∷ [], codes "see now")
unfolding parse_message_media media_from match_length last_ending has_prefix
image = refl

no_text : parse_command_message (text []) ≡ panic
unfolding parse_command_message
no_text = refl
