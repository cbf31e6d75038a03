-- ===== src/Service/Templates/Render.antt =====
-- Rendering replaces every placeholder by its value, once.
use zzte.Strings.{strip_prefix, has_prefix, split, join, trim_space}
use zzte.Strings.Replacer.{first_match, replace}
use zzte.Strings.Replacer.Laws.{AreNonEmpty, replace-cons, replace-match}
use zzte.Domain.{ok, ProvisioningRequest}
use zzte.Service.Templates.{
  TemplateData, placeholders, provisioning_template, new_provisioning_template_data, template_lines,
  render_provisioning_template, generate_provisioning_commands, is_command,
}
use zzte.Service.Templates.Texts.{zte_v1_text, zte_v2_text, huawei_v1_text, huawei_v2_text}
use zzte.Prelude.{
  =ᵗ_iff, All, Bool, List, Option, Text, [], all, ap, arith, codes, false, int_eq, length, map,
  nat_eq, none, not, refl, some, suc, sym, text_eq, true, zero, ℕ, ◌&&◌, ◌++◌, ◌==◌, ◌=ᵗ◌, ◌∙◌, ◌∷◌,
  ◌≡◌,
}

-- The thirteen placeholders of the templates.
pub data Placeholder : Type 0 where
  slot port onu_id sn name bandwidth vlan_hsi vlan_hot : Placeholder
  vlan_profile_hsi vlan_profile_hot pppoe_user pppoe_pass onu_type : Placeholder

abbrev pub key : Placeholder → Text
key slot = codes "{{slot}}"
key port = codes "{{port}}"
key onu_id = codes "{{onu_id}}"
key sn = codes "{{sn}}"
key name = codes "{{name}}"
key bandwidth = codes "{{bandwidth}}"
key vlan_hsi = codes "{{vlan_hsi}}"
key vlan_hot = codes "{{vlan_hot}}"
key vlan_profile_hsi = codes "{{vlan_profile_hsi}}"
key vlan_profile_hot = codes "{{vlan_profile_hot}}"
key pppoe_user = codes "{{pppoe_user}}"
key pppoe_pass = codes "{{pppoe_pass}}"
key onu_type = codes "{{onu_type}}"

abbrev pub value : TemplateData → Placeholder → Text
value d slot = d.slot
value d port = d.port
value d onu_id = d.onu_id
value d sn = d.sn
value d name = d.name
value d bandwidth = d.bandwidth
value d vlan_hsi = d.vlan_internet
value d vlan_hot = d.vlan_hotspot
value d vlan_profile_hsi = d.vlan_profile_internet
value d vlan_profile_hot = d.vlan_profile_hotspot
value d pppoe_user = d.pppoe_user
value d pppoe_pass = d.pppoe_pass
value d onu_type = d.onu_type

-- A line of a template: bytes and placeholders.
pub data Piece : Type 0 where
  byte : ℕ → Piece
  hole : Placeholder → Piece

abbrev pub written : List Piece → Text
written [] = []
written (byte c ∷ pieces) = c ∷ written pieces
written (hole p ∷ pieces) = key p ++ written pieces

abbrev pub filled : TemplateData → List Piece → Text
filled d [] = []
filled d (byte c ∷ pieces) = c ∷ filled d pieces
filled d (hole p ∷ pieces) = value d p ++ filled d pieces

-- No byte of the line opens a brace.
abbrev pub IsPlain : Piece → Type 0
IsPlain (byte c) = (c == b'{') ≡ false
IsPlain (hole p) = Unit

-- The text starts with a brace.
abbrev IsBraced : Text × Text → Type 0
IsBraced ([], new) = ⊥
IsBraced (c ∷ old, new) = c ≡ b'{'

first_match-none :
    (pairs : List (Text × Text)) (c : ℕ) (s : Text)
    → All IsBraced pairs
    → (c == b'{') ≡ false
    → first_match pairs (c ∷ s) ≡ none
unfolding first_match strip_prefix
first_match-none [] c s h k = refl
first_match-none (([], new) ∷ pairs) c s (q, h) k = absurd q
first_match-none ((d ∷ old, new) ∷ pairs) c s (q, h) k =
    ground (arith, q, k, first_match-none pairs c s h k)

first_match-byte :
    (d : TemplateData) (c : ℕ) (s : Text)
    → (c == b'{') ≡ false
    → first_match (placeholders d) (c ∷ s) ≡ none
unfolding placeholders
first_match-byte d c s h = first_match-none (placeholders d) c s (ground arith) h

first_match-hole :
    (d : TemplateData) (p : Placeholder) (s : Text)
    → first_match (placeholders d) (key p ++ s) ≡ some (value d p, s)
unfolding first_match placeholders strip_prefix
first_match-hole d slot s = refl
first_match-hole d port s = refl
first_match-hole d onu_id s = refl
first_match-hole d sn s = refl
first_match-hole d name s = refl
first_match-hole d bandwidth s = refl
first_match-hole d vlan_hsi s = refl
first_match-hole d vlan_hot s = refl
first_match-hole d vlan_profile_hsi s = refl
first_match-hole d vlan_profile_hot s = refl
first_match-hole d pppoe_user s = refl
first_match-hole d pppoe_pass s = refl
first_match-hole d onu_type s = refl

placeholders-AreNonEmpty : (d : TemplateData) → AreNonEmpty (placeholders d)
unfolding placeholders
placeholders-AreNonEmpty d = ground arith

replace-hole :
    (d : TemplateData) (p : Placeholder) (s : Text)
    → replace (placeholders d) (key p ++ s) ≡ value d p ++ replace (placeholders d) s
replace-hole d p s =
    replace-match (placeholders d) (key p ++ s) (value d p) s (placeholders-AreNonEmpty d)
      (first_match-hole d p s)

-- Replacing in a written line gives the line with every placeholder filled in.
replace-written :
    (d : TemplateData) (pieces : List Piece)
    → All IsPlain pieces
    → replace (placeholders d) (written pieces) ≡ filled d pieces
replace-written d [] h = unfold replace in refl
replace-written d (byte c ∷ pieces) (q, h) =
    replace-cons (placeholders d) c (written pieces) (first_match-byte d c (written pieces) q)
    ∙ ap (λ t. c ∷ t) (replace-written d pieces h)
replace-written d (hole p ∷ pieces) (q, h) =
    replace-hole d p (written pieces) ∙ ap (λ t. value d p ++ t) (replace-written d pieces h)

-- A line read into its pieces, one after the other; the fuel is its length.
abbrev all_placeholders : List Placeholder
all_placeholders =
    slot ∷ port ∷ onu_id ∷ sn ∷ name ∷ bandwidth ∷ vlan_hsi ∷ vlan_hot ∷ vlan_profile_hsi
    ∷ vlan_profile_hot ∷ pppoe_user ∷ pppoe_pass ∷ onu_type ∷ []

unfoldable first_hole : List Placeholder → Text → Option (Placeholder × Text)
unfolding strip_prefix
first_hole [] s = none
first_hole (p ∷ ps) s = elim (strip_prefix (key p) s) [
  | some rest ↦ some (p, rest)
  | none ↦ first_hole ps s
]

unfoldable pieces_from : ℕ → Text → List Piece
unfolding first_hole
pieces_from zero s = []
pieces_from (suc fuel) [] = []
pieces_from (suc fuel) (c ∷ s) = elim (first_hole all_placeholders (c ∷ s)) [
  | none ↦ byte c ∷ pieces_from fuel s
  | some (p, rest) ↦ hole p ∷ pieces_from fuel rest
]

unfoldable pub pieces_of : Text → List Piece
unfolding pieces_from
pieces_of line = pieces_from (length line) line

abbrev is_plain : Piece → Bool
is_plain (byte c) = not (c == b'{')
is_plain (hole p) = true

-- The line is what its pieces write, and its braces are those of placeholders.
unfoldable is_read : Text → Bool
unfolding pieces_of ◌=ᵗ◌
is_read line = let pieces = pieces_of line in (written pieces =ᵗ line) && all is_plain pieces

IsPlain-of_all : (pieces : List Piece) → all is_plain pieces ≡ true → All IsPlain pieces
IsPlain-of_all [] h = tt
IsPlain-of_all (byte c ∷ pieces) h = (ground (arith, h), IsPlain-of_all pieces (ground (arith, h)))
IsPlain-of_all (hole p ∷ pieces) h = (tt, IsPlain-of_all pieces h)

replace_read :
    (d : TemplateData) (line : Text)
    → is_read line ≡ true
    → replace (placeholders d) line ≡ filled d (pieces_of line)
unfolding is_read
replace_read d line h =
    let same : written (pieces_of line) ≡ line =
      (=ᵗ_iff (written (pieces_of line)) line).0 (ground (arith, h)) in
    ap (λ t. replace (placeholders d) t) (sym same)
    ∙ replace-written d (pieces_of line) (IsPlain-of_all (pieces_of line) (ground (arith, h)))

render_read :
    (d : TemplateData) (lines : List Text)
    → all is_read lines ≡ true
    → map (λ line. replace (placeholders d) line) lines
      ≡ map (λ line. filled d (pieces_of line)) lines
render_read d [] h = refl
render_read d (line ∷ lines) h =
    cc (replace_read d line (ground (arith, h)), render_read d lines (ground (arith, h)))

zte_v1-read : all is_read (template_lines zte_v1_text) ≡ true
unfolding is_read template_lines split join trim_space is_command has_prefix pieces_of
zte_v1-read = refl

zte_v2-read : all is_read (template_lines zte_v2_text) ≡ true
unfolding is_read template_lines split join trim_space is_command has_prefix pieces_of
zte_v2-read = refl

huawei_v1-read : all is_read (template_lines huawei_v1_text) ≡ true
unfolding is_read template_lines split join trim_space is_command has_prefix pieces_of
huawei_v1-read = refl

huawei_v2-read : all is_read (template_lines huawei_v2_text) ≡ true
unfolding is_read template_lines split join trim_space is_command has_prefix pieces_of
huawei_v2-read = refl

templates-read :
    (template_id raw : Text)
    → provisioning_template template_id ≡ ok raw
    → all is_read (template_lines raw) ≡ true
unfolding provisioning_template
templates-read template_id raw h =
    ground (arith, h, zte_v1-read, zte_v2-read, huawei_v1-read, huawei_v2-read)

-- The commands of a run are the lines of the template read into bytes and placeholders, with each
-- placeholder filled in by its value once: no value is searched for placeholders, none of the
-- thirteen placeholders stays unfilled, and the values do not change the number of commands.
pub generate_provisioning_commands-filled :
    (req : ProvisioningRequest) (raw : Text)
    → provisioning_template req.template_id ≡ ok raw
    → generate_provisioning_commands req
      ≡ ok (
          map
            (λ line. filled (new_provisioning_template_data req) (pieces_of line))
            (template_lines raw))
unfolding generate_provisioning_commands render_provisioning_template
generate_provisioning_commands-filled req raw h =
    rw (h, generate_provisioning_commands)
      (ap ok (
        render_read (new_provisioning_template_data req) (template_lines raw)
          (templates-read req.template_id raw h)))
