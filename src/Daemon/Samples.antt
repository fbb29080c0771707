-- ===== src/Daemon/Samples.antt =====
-- A small stand-in for the libraries that the daemon uses, for the examples: JSON objects, strings and
-- numbers, and a signature that writes the secret in front.
use devit.Prelude.{ℕ, Option, none, some, List, [], ◌∷◌, ◌++◌, inr, if◌then◌else◌}
use devit.Text.{Text, text, text_eq}
use devit.Daemon.{Platform}
use devit.Daemon.Handle.{Outside}

-- JSON values, as far as the examples use them.
pub data Json : Type 0 where
  nothing empty : Json
  str : Text → Json
  num : ℕ → Json
  field : Text → Json → Json → Json

abbrev pub get_field : Text → Json → Option Json
get_field key nothing = none
get_field key empty = none
get_field key (str s) = none
get_field key (num n) = none
get_field key (field k v rest) = if text_eq k key then some v else get_field key rest

abbrev pub str_value : Json → Option Text
str_value (str s) = some s
str_value _ = none

abbrev pub num_value : Json → Option ℕ
num_value (num n) = some n
num_value _ = none

abbrev pub fields_of : List (Text × Json) → Json
fields_of [] = empty
fields_of ((k, v) ∷ rest) = field k v (fields_of rest)

abbrev pub platform : Platform Json
platform = record {
  get = get_field;
  as_str = str_value;
  as_u64 = num_value;
  as_array = λ v. none;
  as_object = λ v. none;
  null = nothing;
  string = str;
  number = num;
  boolean = λ b. nothing;
  object = fields_of;
  array = λ vs. nothing;
  to_string = λ v. none;
  display = λ v. [];
  mac = λ secret body. some (secret ++ body);
  encode = λ bytes. bytes;
  decode = λ s. some s;
  show = λ n. n ∷ [];
  rfc3339 = λ n. n ∷ [];
  to_rfc3339 = λ n. n ∷ [];
  file_time = λ n. n ∷ [];
}

abbrev pub outside : Outside Json
outside = record {
  temp_dir = text "/tmp";
  to_value = λ s. none;
  execute = λ job. inr 1;
  human_readable_size = λ n. [];
  strip_prefix = λ root path. none;
}
