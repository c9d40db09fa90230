-- ===== src/Deletion/Steps.antt =====
-- The steps of a deletion, for what their changes keep.
use wordsworth.Prelude.{
  ℕ, suc, String, Bool, true, false, not, ◌&&◌, nat_eq, string_eq, option_eq, List, [], ◌∷◌, Keeps,
  Keeps-bind, keeps_rules, gets, pure, if◌then◌else◌, keep,
}
use wordsworth.States.{state_eq}
use wordsworth.World.{GrantRow, World}
use wordsworth.Tokens.Registry.{registered_tokens}
use wordsworth.Pipeline.{anonymized_text}
use wordsworth.Deletion.{
  names_document, change, release_token, release_tokens, remove_grants, remove_rows, is_shared,
  is_some_mapping, mapping_of, is_some_text, int, without_text,
}

-- What each change of the tables of texts, tokens, mappings and grants keeps.
pub record KeptByRows (d : ℕ) (P : World → Type 0) : Type 0 where
  pub on_texts : (w : World) → P w → P (record w { texts = without_text d w.texts })
  pub on_release : (p : String) (w : World) → P w → P (release_token d p w)
  pub on_grants : (w : World) (gs : List GrantRow) → P w → P (record w { grants = gs })

module _ (P : World → Type 0) (d : ℕ) (k : KeptByRows d P) (dry_run : Bool) where
  pub changed : (f : World → World) → ((w : World) → P w → P (f w)) → Keeps P (change dry_run f)
  changed f kf = record { at = λ w x. go dry_run w x }
    where
      go : (b : Bool) (w : World) → P w → P (if b then w else f w)
      go true w x = x
      go false w x = kf w x

  release_tokens-Keeps : (ps : List String) → Keeps P (release_tokens dry_run d ps)
  unfolding release_tokens
  release_tokens-Keeps [] = search keeps_rules
  release_tokens-Keeps (q ∷ ps) =
      Keeps-bind
        (gets λ w. not (is_shared d q w.pseudonyms) && is_some_mapping (mapping_of q w.mappings)) _
        (search keeps_rules)
        λ orphan.
          Keeps-bind (change dry_run (release_token d q)) _
            (changed (release_token d q) (k.on_release q))
            λ u.
              Keeps-bind (release_tokens dry_run d ps) (λ n. pure (if orphan then suc n else n))
                (release_tokens-Keeps ps) (search keeps_rules)

  remove_grants-Keeps :
      (text : ℕ) (ps : List String) (n : ℕ) → Keeps P (remove_grants dry_run d text ps n)
  unfolding remove_grants
  remove_grants-Keeps text ps n = record {
    at = λ w x.
        (changed (λ w. record w { grants = keep (λ g. not (names_document d g)) w.grants })
            λ v y. k.on_grants v _ y).at
          w x;
  }

  pub remove_rows-Keeps : Keeps P (remove_rows dry_run d)
  unfolding remove_rows
  remove_rows-Keeps =
      Keeps-bind (gets λ w. is_some_text (anonymized_text d w.texts)) _ (search keeps_rules) λ text.
        Keeps-bind (change dry_run (λ w. record w { texts = without_text d w.texts })) _
          (changed (λ w. record w { texts = without_text d w.texts }) k.on_texts)
          λ u. Keeps-bind (gets λ w. registered_tokens d w.pseudonyms) _ (search keeps_rules) λ ps.
            Keeps-bind (release_tokens dry_run d ps) _ (release_tokens-Keeps ps)
              (remove_grants-Keeps (int text) ps)
