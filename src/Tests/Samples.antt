-- ===== src/Tests/Samples.antt =====
-- Test data: the ASCII part of the Unicode tables, floats in hundredths, a platform.
use maskgate.Base.{
  Text, [], arith, codes, false, if◌then◌else◌, leb, list_eq, map, max, nat_eq, option_eq, pair_eq,
  true, ℕ, ◌&&◌, ◌*◌, ◌+◌, ◌-◌, ◌/◌, ◌==◌, ◌∷◌, ◌≡◌, ◌⊎◌,
}
use maskgate.Unicode.{Unicode}
use maskgate.Privacy.{Floats}
use maskgate.PolicyV2.{Platform}
use maskgate.Vault.{MappingItem, Vault, VaultBudget, empty_vault}
use maskgate.Policies.{PolicyEngine}

abbrev pub ascii_upper : ℕ → ℕ
ascii_upper c = if leb 97 c && leb c 122 then c - 32 else c

abbrev pub ascii_lower : ℕ → ℕ
ascii_lower c = if leb 65 c && leb c 90 then c + 32 else c

abbrev pub ascii_title : Text → Text
ascii_title [] = []
ascii_title (c ∷ s) = ascii_upper c ∷ map ascii_lower s

abbrev pub ascii : Unicode
ascii = record {
  upper = map ascii_upper;
  casefold = map ascii_lower;
  title = ascii_title;
  is_space = λ c. c == 32;
  is_decimal = λ c. leb 48 c && leb c 57;
  is_combining = λ c. false;
  nfkc = λ s. s;
}

pub leb_refl : (x : ℕ) → leb x x ≡ true
leb_refl x = ground arith

pub leb_trans : (x y z : ℕ) → leb x y ≡ true → leb y z ≡ true → leb x z ≡ true
leb_trans x y z h k = ground arith

pub leb_total : (x y : ℕ) → (leb x y ≡ true) ⊎ (leb y x ≡ true)
leb_total x y = ground arith

-- A float as its number of hundredths.
abbrev pub hundredths : Floats
hundredths = record {
  Float = ℕ;
  le_f = leb;
  zero_f = 0;
  one_f = 100;
  nudge = λ x. x + 2;
  weigh = λ n x. (n * max 25 x + 50) / 100;
  le_f_refl = leb_refl;
  le_f_trans = leb_trans;
  le_f_total = leb_total;
}

-- A digest that keeps its text.
abbrev pub platform : Platform
platform = record { unicode = ascii; sha256 = λ s. s }

abbrev pub item_ann : MappingItem
item_ann = record {
  entity_type = codes "PERSON";
  original = codes "Ann";
  replacement = codes "<MG_abcd_PERSON_1>";
  restore = true;
}

abbrev pub item_mail : MappingItem
item_mail = record {
  entity_type = codes "EMAIL";
  original = codes "a@b.c";
  replacement = codes "<MG_abcd_EMAIL_1>";
  restore = true;
}

abbrev pub budget : VaultBudget
budget = record { max_mappings = 2; max_sensitive_bytes = 2048 }

abbrev pub fresh_vault : Vault
fresh_vault = empty_vault budget

abbrev pub plain_policy : PolicyEngine
plain_policy = record {
  rules = [];
  public_email_allowlist = [];
  public_email_domain_allowlist = [];
  public_person_allowlist = [];
}
