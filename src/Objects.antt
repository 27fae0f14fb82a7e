-- ===== src/Objects.antt =====
-- windows/external_native/protected_objects.h and protected_objects.cpp: what is observed of a file
-- object, and the checks of objects and of names. A wide string is the list of its UTF-16 units, a
-- SID the list of its bytes.
pub mod Names
use Prim.Native.Nat.{◌≤◌}
use shiroha_quiz.Base.{
  ℕ, ◌/◌, ◌%◌, ◌^◌, Bool, true, false, not, ◌&&◌, ◌||◌, Option, none, some, List, [], ◌∷◌, ◌++◌,
  ltb, leb, ◌==◌, if◌then◌else◌, length, get_or, drop, all, is_empty, Bytes, bytes_eq, codes,
}

abbrev pub Sid : Type 0
Sid = Bytes

pub record Ace : Type 0 where
  pub type : ℕ
  pub flags : ℕ
  pub mask : ℕ
  pub sid : Sid

pub record ObjectInfo : Type 0 where
  pub volume : ℕ
  pub file : ℕ
  pub attributes : ℕ
  pub drive_type : ℕ
  pub links : ℕ
  pub filesystem : Bytes
  pub owner : Sid
  pub dacl_present : Bool
  pub dacl_protected : Bool
  pub aces : List Ace

abbrev pub no_info : ObjectInfo
no_info = record {
  volume = 0;
  file = 0;
  attributes = 0;
  drive_type = 0;
  links = 0;
  filesystem = [];
  owner = [];
  dacl_present = false;
  dacl_protected = false;
  aces = [];
}

-- `(value & (1 << bit)) != 0`
abbrev pub has_bit : ℕ → ℕ → Bool
has_bit value bit = value / 2 ^ bit % 2 == 1

-- FILE_ATTRIBUTE_DIRECTORY is bit 4, FILE_ATTRIBUTE_REPARSE_POINT bit 10.
abbrev pub is_directory : ObjectInfo → Bool
is_directory i = has_bit i.attributes 4

abbrev bool_eq : Bool → Bool → Bool
bool_eq true b = b
bool_eq false b = not b

abbrev drive_fixed : ℕ
drive_fixed = 3

-- FILE_ALL_ACCESS
abbrev pub file_all_access : ℕ
file_all_access = 0x1f01ff

-- CONTAINER_INHERIT_ACE | OBJECT_INHERIT_ACE on a directory; the type is ACCESS_ALLOWED_ACE_TYPE.
unfoldable pub ace_valid : Ace → Sid → Bool → Bool
ace_valid ace sid directory =
    ace.type == 0
    && (ace.flags == (if directory then 3 else 0)
        && (ace.mask == file_all_access && bytes_eq ace.sid sid))

unfoldable pub only_ace_valid : List Ace → Sid → Bool → Bool
unfolding ace_valid
only_ace_valid [] sid directory = false
only_ace_valid (ace ∷ []) sid directory = ace_valid ace sid directory
only_ace_valid (ace ∷ other ∷ aces) sid directory = false

unfoldable pub object_valid : ObjectInfo → Sid → Bool → Bool → Bool → Bool
unfolding only_ace_valid
object_valid i sid directory check_owner check_dacl =
    if is_empty sid
      || (not (bytes_eq i.filesystem (codes "NTFS"))
          || (not (i.drive_type == drive_fixed)
              || (i.file == 0
                  || (has_bit i.attributes 10
                      || (not (bool_eq (is_directory i) directory)
                          || (not directory && not (i.links == 1)
                              || check_owner && not (bytes_eq i.owner sid)))))))
    then false
    else if not check_dacl
    then true
    else if not i.dacl_present || not i.dacl_protected
    then false
    else only_ace_valid i.aces sid directory

-- `\` `/` `:` `*` `?` `"` `<` `>` `|` and the control characters.
abbrev pub is_special : ℕ → Bool
is_special c =
    c == 0x5c
    || (c == 0x2f
        || (c == 0x3a
            || (c == 0x2a
                || (c == 0x3f || (c == 0x22 || (c == 0x3c || (c == 0x3e || c == 0x7c)))))))

abbrev pub last_or : ℕ → Bytes → ℕ
last_or d [] = d
last_or d (c ∷ cs) = last_or c cs

abbrev pub is_dots : Bytes → Bool
is_dots name = bytes_eq name (codes ".") || bytes_eq name (codes "..")

unfoldable pub safe_component : Bytes → Bool
safe_component name =
    if is_empty name || (ltb 64 (length name) || is_dots name)
    then false
    else if not (all (λ c. not (ltb c 32 || is_special c)) name)
    then false
    else not (last_or 0 name == 0x2e) && not (last_or 0 name == 0x20)

-- The characters of a path from its index 2 on: the backslash is allowed, and surrogates pair up.
abbrev path_special : ℕ → Bool
path_special c = ltb c 32 || is_special c && not (c == 0x5c)

abbrev is_high : ℕ → Bool
is_high c = leb 0xd800 c && leb c 0xdbff

abbrev is_low : ℕ → Bool
is_low c = leb 0xdc00 c && leb c 0xdfff

units_valid : Bytes → Bool
units_valid [] = true
units_valid (c ∷ []) = not (path_special c) && (not (is_high c) && not (is_low c))
units_valid (c ∷ d ∷ rest) =
    let after_pair = units_valid rest in
    let after_unit = units_valid (d ∷ rest) in
    if path_special c
    then false
    else if is_high c
    then is_low d && after_pair
    else if is_low c
    then false
    else after_unit

component_valid : Bytes → Bool
component_valid name = not (is_empty name) && not (is_dots name)

-- The loop over the components; the first argument is the component read so far. A path may end in
-- a backslash.
components_valid : Bytes → Bytes → Bool
unfolding component_valid
components_valid name [] = component_valid name
components_valid name (c ∷ []) =
    if c == 0x5c then component_valid name else component_valid (name ++ c ∷ [])
components_valid name (c ∷ d ∷ rest) =
    let next = components_valid [] (d ∷ rest) in
    let same = components_valid (name ++ c ∷ []) (d ∷ rest) in
    if c == 0x5c then component_valid name && next else same

abbrev pub is_letter : ℕ → Bool
is_letter c = leb 0x41 c && leb c 0x5a || leb 0x61 c && leb c 0x7a

-- The result, where the call returns true.
unfoldable pub local_nt_name : Bytes → Option Bytes
unfolding units_valid components_valid
local_nt_name path =
    if ltb (length path) 3
      || (ltb 32762 (length path)
          || (not (is_letter (get_or path 0 0))
              || (not (get_or path 1 0 == 0x3a) || not (get_or path 2 0 == 0x5c))))
    then none
    else if not (units_valid (drop 2 path))
    then none
    else if not (is_empty (drop 3 path)) && not (components_valid [] (drop 3 path))
    then none
    else some (codes "\\??\\" ++ path)
