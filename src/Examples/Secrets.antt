-- ===== src/Examples/Secrets.antt =====
-- The theorems on keys, mappings, escrow and pseudonyms, applied to a toy cipher.
use wordsworth.Prelude.{String, ◌≡◌, refl, true, Option, none, some, List, [], ◌∷◌, ok}
use wordsworth.Text.{upper, lower}
use wordsworth.World.{Bytes}
use wordsworth.Normalization.{Unicode}
use wordsworth.Tokens.{label_of, is_label_char, is_hex_char}
use wordsworth.Tokens.Reveal.{reveal}
use wordsworth.Keys.{Key, Keystore, scope_for, current_id, find_key, get_mapping}
use wordsworth.Keys.Escrow.{Sealing, IsSealing, deposit, recover, recover-deposit}
use wordsworth.Keys.Rotation.{rotate_keys}
use wordsworth.Keys.Clear.{readable}
use wordsworth.Keys.Rotated.{Rotated, rotate_keys-Rotated}
use wordsworth.Keys.Pseudonyms.{pseudonym, vault_of, token, pseudonym_of}
use wordsworth.Keys.Pseudonyms.RoundTrip.{is_hex}
use wordsworth.Keys.Pseudonyms.Stored.{reveal-pseudonym, is_name}
use wordsworth.Examples.Toy.{toy, toy-IsCipher}

abbrev sealing : Sealing
sealing = record {
  ephemeral = λ n. n ∷ [];
  derived = λ n. n ∷ [];
  exchanged = λ b. b;
  nonce = λ n. n ∷ [];
  seal = λ k n m a. m;
  unseal = λ k n m a. ok m;
}

sealing-IsSealing : IsSealing sealing
sealing-IsSealing = record { agree = λ n. refl; opens = λ k n m a. refl }

abbrev first_key : Key
first_key = record { id = "k0"; material = 7 ∷ [] }

-- A provider with one key, for the type PERSON, and nothing stored yet.
abbrev keystore : Keystore
keystore = record {
  keys = first_key ∷ [];
  current = ("PERSON", "k0") ∷ [];
  minted = 0;
  drawn = 0;
  mappings = [];
  escrowed = [];
  lifecycle = [];
}

abbrev unicode : Unicode
unicode = record { nfc = λ s. s; casefold = λ s. s; is_digit = λ c. true; strptime = λ s fmt. none }

abbrev digest : Bytes → String → String
digest material text = "5c93c3df"

abbrev person_token : String
person_token = "[PERSON:5c93c3df]"

abbrev persons : Option (List String)
persons = some ("PERSON" ∷ [])

abbrev its_own : Option (List String)
its_own = some (person_token ∷ [])

reveal-pseudonym_example :
    ((pseudonym toy unicode digest "_global" "person" "Jan" keystore).0 ≡ ok person_token)
    × (reveal
          (vault_of toy (pseudonym toy unicode digest "_global" "person" "Jan" keystore).1)
          persons
          its_own
          person_token
        ≡ ok ("Jan", person_token ∷ []))
unfolding upper lower scope_for current_id find_key get_mapping label_of token is_hex is_name
    is_label_char is_hex_char pseudonym_of
reveal-pseudonym_example =
    reveal-pseudonym toy unicode digest toy-IsCipher "_global" "person" "Jan" "PERSON" first_key
      keystore persons its_own refl refl refl refl refl refl refl refl

-- The store once a name was pseudonymised.
abbrev with_name : Keystore
with_name = (pseudonym toy unicode digest "_global" "person" "Jan" keystore).1

rotate_keys-Rotated_example :
    ((rotate_keys toy sealing 0 "jan" "PERSON" with_name).0 ≡ ok (toy.mint 0))
    × Rotated toy toy-IsCipher sealing "PERSON" first_key
        (toy.mint 0)
        with_name
        (rotate_keys toy sealing 0 "jan" "PERSON" with_name).1
unfolding pseudonym upper lower scope_for current_id find_key get_mapping readable
rotate_keys-Rotated_example =
    rotate_keys-Rotated toy toy-IsCipher sealing 0 "jan" "PERSON" first_key with_name refl refl refl
      refl

recover-deposit_example :
    (recover sealing "k0" (deposit sealing 0 first_key keystore).1).0 ≡ ok first_key
recover-deposit_example = recover-deposit sealing 0 first_key "k0" keystore sealing-IsSealing
