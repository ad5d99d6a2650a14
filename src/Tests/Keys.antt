-- ===== src/Tests/Keys.antt =====
-- clientlib/cryptframe.c with one key.
use assimilation_official.Common.{◌≡◌, refl, true, none, some, arith}
use assimilation_official.CryptKeys.{
  KeyMaps, has, key_ids_for, whois_key_id, initialize_maps, publickey_new, associate_new,
  associate_identity, dissociate_identity,
}
use assimilation_official.CryptKeys.Agreeing.{
  AreAgreed, associate_identity-AreAgreed, dissociate_other,
}

-- The public key of key id 5.
abbrev one_key : KeyMaps
one_key = (publickey_new initialize_maps 5 77).1

one_key-AreAgreed : AreAgreed one_key
unfolding publickey_new has
one_key-AreAgreed key_id identity = ground arith

associate_identity-AreAgreed_example : AreAgreed (associate_identity one_key 1 5).1
associate_identity-AreAgreed_example = associate_identity-AreAgreed one_key 1 5 one_key-AreAgreed

-- It belongs to the identity 1.
abbrev known : KeyMaps
known = (associate_identity one_key 1 5).1

known-AreAgreed : AreAgreed known
known-AreAgreed = associate_identity-AreAgreed one_key 1 5 one_key-AreAgreed

known_whois : whois_key_id known 5 ≡ some 1
unfolding associate_identity associate_new publickey_new has
known_whois = refl

dissociate_other_example :
    (whois_key_id (dissociate_identity known 2 5).1 5 ≡ none)
    × (has 5 (key_ids_for (dissociate_identity known 2 5).1 1) ≡ true)
dissociate_other_example = dissociate_other known 1 2 5 known-AreAgreed known_whois (omega arith)
