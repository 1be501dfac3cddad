-- ===== src/Cli/Registry/Kept.antt =====
-- What a merge of an alias leaves as it was (cli/src/utils/registry.ts, `mergeNetworkAliases`).
use bc_forge.Common.{
  ◌≡◌, refl, sym, ap, ◌∙◌, false, not, ◌&&◌, ◌||◌, none, some, [], ◌∷◌, String, arith, eq_iff,
  ===_refl, ◌===◌, is_nonempty, Bool-cases, inl, inr,
}
use bc_forge.Common.Dict.{Dict, lookup, insert, erase, lookup-insert, lookup-erase}
use bc_forge.Cli.Names.{trim, is_secret_key, is_alias, NetworkName, network_text}
use bc_forge.Cli.Registry.{
  NetworkAliasMap, merge_aliases, or_empty, bucket_at, with_bucket, merge_network_aliases,
}

bucket_at-with_bucket :
    (name : String) (bucket : Dict String) (networks : NetworkAliasMap)
    → bucket_at name (with_bucket name bucket networks) ≡ bucket
bucket_at-with_bucket name [] networks =
    let gone : lookup name (erase name networks) ≡ none =
      lookup-erase name name networks ∙ rw (===_refl name) refl in
    ap or_empty gone
bucket_at-with_bucket name (a ∷ bucket) networks =
    let there : lookup name (insert name (a ∷ bucket) networks) ≡ some (a ∷ bucket) =
      lookup-insert name name (a ∷ bucket) networks ∙ rw (===_refl name) refl in
    ap or_empty there

other_bucket :
    (name other : String) (bucket : Dict String) (networks : NetworkAliasMap)
    → (name === other) ≡ false
    → bucket_at other (with_bucket name bucket networks) ≡ bucket_at other networks
other_bucket name other [] networks h =
    let kept : lookup other (erase name networks) ≡ lookup other networks =
      lookup-erase name other networks ∙ rw h refl in
    ap or_empty kept
other_bucket name other (a ∷ bucket) networks h =
    let kept : lookup other (insert name (a ∷ bucket) networks) ≡ lookup other networks =
      lookup-insert name other (a ∷ bucket) networks ∙ rw h refl in
    ap or_empty kept

other_alias_kept :
    (alias other id : String) (bucket : Dict String)
    → (alias === other) ≡ false
    → lookup other (merge_aliases ((alias, some id) ∷ []) bucket) ≡ lookup other bucket
unfolding merge_aliases
other_alias_kept alias other id bucket h =
    elim (Bool-cases
      (not (is_nonempty (trim id)) || is_secret_key (trim id) || not (is_alias alias))) [
        | inl e ↦ rw e refl
        | inr e ↦ rw (e, lookup-insert alias other (trim id) bucket, h) refl
      ]

-- A merge of one alias leaves every other alias of its network, and every alias of every other
-- network, with the contract id that it had.
pub merge_network_aliases-others :
    (networks : NetworkAliasMap) (network : NetworkName) (alias id : String) (name other : String)
    → (network_text network === name && alias === other) ≡ false
    → lookup other (bucket_at name (merge_network_aliases networks network ((alias, some id) ∷ [])))
      ≡ lookup other (bucket_at name networks)
unfolding merge_network_aliases
merge_network_aliases-others networks network alias id name other h =
    let here = network_text network in
    let merged = merge_aliases ((alias, some id) ∷ []) (bucket_at here networks) in
    elim (Bool-cases (here === name)) [
      | inr e ↦ ap (lookup other) (other_bucket here name merged networks e)
      | inl e ↦
          let same : here ≡ name = (eq_iff here name).0 e in
          let differ : (alias === other) ≡ false = ground arith in
          ap (λ n. lookup other (bucket_at n (with_bucket here merged networks))) (sym same)
          ∙ ap (lookup other) (bucket_at-with_bucket here merged networks)
          ∙ other_alias_kept alias other id (bucket_at here networks) differ
          ∙ ap (λ n. lookup other (bucket_at n networks)) same
    ]
