-- ===== src/Config/Fields.antt =====
-- internal/store/appconfig.go: the settings that live in the database. The two long texts of
-- internal/store/prompt.go that are defaults are parameters, since no code looks into them; the
-- labels of the groups and the help are left out.
use Prim.Native.String.{String}
use text.Mathlib.Text.{◌==◌ as str_eq}
use doota.Prelude.{ℕ, Bool, true, false, List, [], ◌∷◌, Option, first_row, exists_row}
use doota.Prelude.Int.{ℤ, pos}
use doota.Prelude.Text.{Text, codes}

pub data FieldKind : Type 0 where
  kind_text kind_textarea kind_int kind_bool kind_choice kind_secret : FieldKind

-- A JSON value, as the three readers tell them apart: `int_value` is a whole number that a Go int
-- holds, and `other_value` is what none of them can decode.
pub data Value : Type 0 where
  null_value other_value : Value
  text_value : Text → Value
  int_value : ℤ → Value
  bool_value : Bool → Value

-- `max` is 0 where a number has no bound.
pub record Field : Type 0 where
  pub key : String
  pub label : Text
  pub kind : FieldKind
  pub default : Value
  pub choices : List Text
  pub max : ℕ

abbrev field : String → Text → FieldKind → Text → Field
field key label kind default = record {
  key = key;
  label = label;
  kind = kind;
  default = text_value default;
  choices = [];
  max = 0;
}

-- `Field.Secret`.
unfoldable pub is_secret : FieldKind → Bool
is_secret kind_secret = true
is_secret _ = false

abbrev pub key_session_secret : String
key_session_secret = "session.secret"

abbrev pub min_session_secret_len : ℕ
min_session_secret_len = 32

abbrev pub max_output_tokens_field : Field
max_output_tokens_field = record {
  key = "model.max_output_tokens";
  label = codes "Max output tokens";
  kind = kind_int;
  default = int_value (pos 65536);
  choices = [];
  max = 131072;
}

abbrev pub reasoning_effort_field : Field
reasoning_effort_field = record {
  key = "model.reasoning_effort";
  label = codes "Reasoning effort";
  kind = kind_choice;
  default = text_value [];
  choices =
      codes "" ∷ codes "minimal" ∷ codes "low" ∷ codes "medium" ∷ codes "high" ∷ codes "xhigh" ∷ [];
  max = 0;
}

module _ (default_system_prompt default_setup_script : Text) where
  abbrev pub config_fields : List Field
  config_fields =
      field "model.api_key" (codes "Model API key") kind_secret []
      ∷ field "sprites.token" (codes "Fly Sprites token") kind_secret []
      ∷ field "github.token" (codes "GitHub token") kind_secret []
      ∷ field "model.name" (codes "Model") kind_text (codes "muse-spark-1.3-contributor")
      ∷ reasoning_effort_field
      ∷ field "model.base_url" (codes "Base URL") kind_text (codes "https://api.meta.ai/v1")
      ∷ max_output_tokens_field
      ∷ field "agent.system_prompt" (codes "System prompt") kind_textarea default_system_prompt
      ∷ field "sandbox.setup_script" (codes "Setup script") kind_textarea default_setup_script
      ∷ field "git.author_name" (codes "Commit author name") kind_text (codes "doot")
      ∷ field "git.author_email" (codes "Commit author email") kind_text (codes "doot@localhost")
      ∷ []

pub record Credential : Type 0 where
  pub key : String
  pub label : Text

abbrev pub required_credentials : List Credential
required_credentials =
    record { key = "model.api_key"; label = codes "Model API key" }
    ∷ record { key = "sprites.token"; label = codes "Fly Sprites token" }
    ∷ record { key = "github.token"; label = codes "GitHub token" }
    ∷ []

-- `RequiredCredential`.
unfoldable pub required_credential : String → Bool
unfolding exists_row
required_credential key = exists_row (λ (r : Credential). str_eq r.key key) required_credentials

-- `FieldByKey`.
unfoldable pub field_by_key : List Field → String → Option Field
unfolding first_row
field_by_key fields key = first_row (λ (f : Field). str_eq f.key key) fields
