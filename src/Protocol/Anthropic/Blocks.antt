-- ===== src/Protocol/Anthropic/Blocks.antt =====
-- internal/protocol/anthropic.go: content blocks, and what the raw JSON of a content decodes to.
-- `json.Unmarshal` and `json.Marshal` stand between the text and these types: a content is missing
-- or null, a text, an array of blocks, or none of them.
pub mod DataUrl
use Prim.Native.String
use text.Mathlib.Text.{find?}
use clean_api.Base.{
  ℕ, ◌+◌, ltb, starts_with, String, Bool, Option, none, some, List, [], ◌∷◌, Result, ok, err,
  if◌then◌else◌, ◌==◌, string_equality,
}
use clean_api.Base.Text.{◌+++◌, join, has_suffix, without_suffix, after_bytes}

pub record Image : Type 0 where
  pub type : String
  pub media_type : String
  pub base64 : String
  pub url : String

-- A block of which only the text is read.
pub record TextBlock : Type 0 where
  pub type : String
  pub text : String

pub data RawText : Type 0 where
  nothing : RawText
  plain : String → RawText
  listed : List TextBlock → RawText
  invalid : RawText

pub record Block : Type 0 where
  pub type : String
  pub text : String
  pub source : Option Image
  pub id : String
  pub name : String
  pub input : String
  pub tool_use_id : String
  pub content : RawText

pub data RawContent : Type 0 where
  nothing : RawContent
  plain : String → RawContent
  listed : List Block → RawContent
  invalid : RawContent

unfoldable pub texts_of : List TextBlock → List String
texts_of [] = []
texts_of (b ∷ bs) = if b.type == "text" then b.text ∷ texts_of bs else texts_of bs

-- parseAnthropicSystem with "\n\n", parseAnthropicBlockContent with "\n".
unfoldable pub parse_raw_text : String → RawText → String
parse_raw_text sep nothing = ""
parse_raw_text sep (plain s) = s
parse_raw_text sep (listed bs) = join (texts_of bs) sep
parse_raw_text sep invalid = ""

abbrev pub or_png : String → String
or_png mt = if mt == "" then "image/png" else mt

abbrev pub data_url : String → String → String
data_url media_type base64 = "data:" +++ media_type +++ ";base64," +++ base64

abbrev pub base64_url : Image → Result String String
base64_url img =
    if img.base64 == ""
    then err "image 块缺少 base64 data"
    else ok (data_url (or_png img.media_type) img.base64)

unfoldable pub image_to_data_url : Option Image → Result String String
image_to_data_url none = err "image 块缺少 source"
image_to_data_url (some img) =
    if img.type == "url"
    then ok img.url
    else if img.type == "base64"
    then base64_url img
    else err ("不支持的 image source 类型: " +++ img.type)

abbrev pub url_image : String → Image
url_image url = record { type = "url"; media_type = ""; base64 = ""; url = url }

-- A meta part and what follows the comma.
abbrev pub image_of_meta : String → String → Image
image_of_meta meta rest =
    if has_suffix meta ";base64"
    then record {
      type = "base64";
      media_type = without_suffix meta ";base64";
      base64 = rest;
      url = "";
    }
    else url_image ("data:" +++ meta +++ "," +++ rest)

-- Split at the first comma, which may not stand in front.
abbrev pub image_of_comma : String → String → Option ℕ → Image
image_of_comma whole rest none = url_image whole
image_of_comma whole rest (some comma) =
    if ltb 0 comma
    then image_of_meta (String.slice rest 0 comma) (after_bytes (comma + 1) rest)
    else url_image whole

unfoldable pub image_source_from_data_url : String → Image
image_source_from_data_url whole =
    if starts_with whole "data:"
    then image_of_comma whole (after_bytes 5 whole) (find? (after_bytes 5 whole) ",")
    else url_image whole
