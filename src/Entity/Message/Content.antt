-- ===== src/Entity/Message/Content.antt =====
-- internal/entity/message.go: the typed content of a message and its flat form. The JSON that a
-- custom content holds is the text of it.
use nexo_im.Base.{ℕ, ◌+◌, Text, is_empty, Option, none, some, is_some, Bool, [], not, if◌then◌else◌}

pub record FileContent : Type 0 where
  pub url : Text
  pub name : Text

-- The text, image, video and audio payloads have one field each: the pointer to the struct is the
-- option of that field.
pub record MessageContent : Type 0 where
  pub text : Option Text
  pub image : Option Text
  pub video : Option Text
  pub audio : Option Text
  pub file : Option FileContent
  pub custom : Text

pub record FlatMessageContent : Type 0 where
  pub text : Text
  pub image : Text
  pub video : Text
  pub audio : Text
  pub file : Text
  pub custom : Text

-- `if c.Text != "" { content.Text = &TextContent{…} }`
abbrev non_empty : Text → Option Text
non_empty t = if is_empty t then none else some t

abbrev file_of : Text → Option FileContent
file_of t = if is_empty t then none else some (record { url = t; name = [] })

unfoldable pub new_message_content_from_flat : FlatMessageContent → MessageContent
new_message_content_from_flat c = record {
  text = non_empty c.text;
  image = non_empty c.image;
  video = non_empty c.video;
  audio = non_empty c.audio;
  file = file_of c.file;
  custom = c.custom;
}

or_empty : Option Text → Text
or_empty none = []
or_empty (some t) = t

file_url : Option FileContent → Text
file_url none = []
file_url (some f) = f.url

unfoldable pub to_flat : MessageContent → FlatMessageContent
unfolding or_empty file_url
to_flat c = record {
  text = or_empty c.text;
  image = or_empty c.image;
  video = or_empty c.video;
  audio = or_empty c.audio;
  file = file_url c.file;
  custom = c.custom;
}

abbrev counted : Bool → ℕ
counted b = if b then 1 else 0

unfoldable pub payload_count : MessageContent → ℕ
payload_count c =
    counted (is_some c.text)
    + counted (is_some c.image)
    + counted (is_some c.video)
    + counted (is_some c.audio)
    + counted (is_some c.file)
    + counted (not (is_empty c.custom))
