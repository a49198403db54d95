-- ===== src/StringDict/Semantic.antt =====
-- The kinds of strings in the dictionary and their names in the database.
use tweet_db.Base.{
  ◌≡◌, refl, Option, none, some, Bool, true, false, String, same_text, if◌then◌else◌,
}
use mathlib.Core.Logic.{ite, if_pos, if_neg}

pub data StringSemantic : Type 0 where
  tweet_text_style_name tweet_user_verification_type tweet_user_professional_type : StringSemantic
  tweet_user_disclosure_relation tweet_user_parody_label tweet_user_avatar_shape : StringSemantic
  tweet_country_name tweet_country_code tweet_language_code : StringSemantic
  tweet_media_availability_status tweet_media_sensitivity_code tweet_media_tag_kind : StringSemantic
  tweet_media_resize_mode tweet_video_content_type tweet_place_kind : StringSemantic
  tweet_reply_policy_code tweet_action_code tweet_source : StringSemantic

StringSemantic-discrete : Discrete StringSemantic
StringSemantic-discrete = hlevel

unfoldable pub same_semantic : StringSemantic → StringSemantic → Bool
unfolding StringSemantic-discrete
same_semantic a b = ite (StringSemantic-discrete a b) true false

abbrev pub as_db_str : StringSemantic → String
as_db_str tweet_text_style_name = "tweet_text_style_name"
as_db_str tweet_user_verification_type = "tweet_user_verification_type"
as_db_str tweet_user_professional_type = "tweet_user_professional_type"
as_db_str tweet_user_disclosure_relation = "tweet_user_disclosure_relation"
as_db_str tweet_user_parody_label = "tweet_user_parody_label"
as_db_str tweet_user_avatar_shape = "tweet_user_avatar_shape"
as_db_str tweet_country_name = "tweet_country_name"
as_db_str tweet_country_code = "tweet_country_code"
as_db_str tweet_language_code = "tweet_language_code"
as_db_str tweet_media_availability_status = "tweet_media_availability_status"
as_db_str tweet_media_sensitivity_code = "tweet_media_sensitivity_code"
as_db_str tweet_media_tag_kind = "tweet_media_tag_kind"
as_db_str tweet_media_resize_mode = "tweet_media_resize_mode"
as_db_str tweet_video_content_type = "tweet_video_content_type"
as_db_str tweet_place_kind = "tweet_place_kind"
as_db_str tweet_reply_policy_code = "tweet_reply_policy_code"
as_db_str tweet_action_code = "tweet_action_code"
as_db_str tweet_source = "tweet_source"

-- None is the panic on an unknown name.
unfoldable pub semantic_from_db : String → Option StringSemantic
semantic_from_db value =
    if same_text value "tweet_text_style_name"
    then some tweet_text_style_name
    else if same_text value "tweet_user_verification_type"
    then some tweet_user_verification_type
    else if same_text value "tweet_user_professional_type"
    then some tweet_user_professional_type
    else if same_text value "tweet_user_disclosure_relation"
    then some tweet_user_disclosure_relation
    else if same_text value "tweet_user_parody_label"
    then some tweet_user_parody_label
    else if same_text value "tweet_user_avatar_shape"
    then some tweet_user_avatar_shape
    else if same_text value "tweet_country_name"
    then some tweet_country_name
    else if same_text value "tweet_country_code"
    then some tweet_country_code
    else if same_text value "tweet_language_code"
    then some tweet_language_code
    else if same_text value "tweet_media_availability_status"
    then some tweet_media_availability_status
    else if same_text value "tweet_media_sensitivity_code"
    then some tweet_media_sensitivity_code
    else if same_text value "tweet_media_tag_kind"
    then some tweet_media_tag_kind
    else if same_text value "tweet_media_resize_mode"
    then some tweet_media_resize_mode
    else if same_text value "tweet_video_content_type"
    then some tweet_video_content_type
    else if same_text value "tweet_place_kind"
    then some tweet_place_kind
    else if same_text value "tweet_reply_policy_code"
    then some tweet_reply_policy_code
    else if same_text value "tweet_action_code"
    then some tweet_action_code
    else if same_text value "tweet_source"
    then some tweet_source
    else none

-- A semantic that the database names is read back, without the panic.
pub semantic_from_db-as_db_str : (s : StringSemantic) → semantic_from_db (as_db_str s) ≡ some s
unfolding semantic_from_db
semantic_from_db-as_db_str tweet_text_style_name = refl
semantic_from_db-as_db_str tweet_user_verification_type = refl
semantic_from_db-as_db_str tweet_user_professional_type = refl
semantic_from_db-as_db_str tweet_user_disclosure_relation = refl
semantic_from_db-as_db_str tweet_user_parody_label = refl
semantic_from_db-as_db_str tweet_user_avatar_shape = refl
semantic_from_db-as_db_str tweet_country_name = refl
semantic_from_db-as_db_str tweet_country_code = refl
semantic_from_db-as_db_str tweet_language_code = refl
semantic_from_db-as_db_str tweet_media_availability_status = refl
semantic_from_db-as_db_str tweet_media_sensitivity_code = refl
semantic_from_db-as_db_str tweet_media_tag_kind = refl
semantic_from_db-as_db_str tweet_media_resize_mode = refl
semantic_from_db-as_db_str tweet_video_content_type = refl
semantic_from_db-as_db_str tweet_place_kind = refl
semantic_from_db-as_db_str tweet_reply_policy_code = refl
semantic_from_db-as_db_str tweet_action_code = refl
semantic_from_db-as_db_str tweet_source = refl

pub same_semantic-eq : (a b : StringSemantic) → same_semantic a b ≡ true → a ≡ b
unfolding same_semantic
same_semantic-eq a b h = elim (StringSemantic-discrete a b) [
  | yes e ↦ e
  | no n ↦ absurd (cc (h, if_neg (StringSemantic-discrete a b) n true false))
]

pub same_semantic_refl : (a : StringSemantic) → same_semantic a a ≡ true
unfolding same_semantic
same_semantic_refl a = if_pos (StringSemantic-discrete a a) refl true false
