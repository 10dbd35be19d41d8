-- ===== src/Tunel/Enderecos.antt =====
-- src/tunel.go, EnderecosLocais: the order of the addresses.
use greenlabs_server.Comum.{
  ◌≡◌, refl, ap, ◌∙◌, true, false, some, List, [], ◌∷◌, ◌++◌, if◌then◌else◌, Bool-cases, inl, inr,
  arith,
}
use greenlabs_server.Tunel.{
  EnderecoLocal, Interface, achados, inserir_estavel, ordenar, enderecos_locais,
}

abbrev pub de_vpn : List EnderecoLocal → List EnderecoLocal
de_vpn [] = []
de_vpn (a ∷ as') = if a.vpn then a ∷ de_vpn as' else de_vpn as'

abbrev pub sem_vpn : List EnderecoLocal → List EnderecoLocal
sem_vpn [] = []
sem_vpn (a ∷ as') = if a.vpn then sem_vpn as' else a ∷ sem_vpn as'

inserir_vpn :
    (a : EnderecoLocal) (bs : List EnderecoLocal) → a.vpn ≡ true → inserir_estavel a bs ≡ a ∷ bs
unfolding inserir_estavel
inserir_vpn a [] e = refl
inserir_vpn a (b ∷ bs) e = ground (arith, e)

inserir_outro :
    (a : EnderecoLocal) (xs : List EnderecoLocal)
    → a.vpn ≡ false
    → inserir_estavel a (sem_vpn xs) ≡ a ∷ sem_vpn xs
unfolding inserir_estavel
inserir_outro a [] e = refl
inserir_outro a (x ∷ xs) e = elim (Bool-cases x.vpn) [
  | inl t ↦ rw t (inserir_outro a xs e)
  | inr f ↦ ground (arith, f)
]

inserir_atras :
    (a : EnderecoLocal) (xs ys : List EnderecoLocal)
    → a.vpn ≡ false
    → inserir_estavel a (de_vpn xs ++ sem_vpn ys) ≡ de_vpn xs ++ (a ∷ sem_vpn ys)
unfolding inserir_estavel
inserir_atras a [] ys e = inserir_outro a ys e
inserir_atras a (x ∷ xs) ys e = elim (Bool-cases x.vpn) [
  | inl t ↦ ground (arith, t, e, inserir_atras a xs ys e)
  | inr f ↦ rw f (inserir_atras a xs ys e)
]

partes_vpn :
    (a : EnderecoLocal) (xs : List EnderecoLocal)
    → a.vpn ≡ true
    → a ∷ (de_vpn xs ++ sem_vpn xs) ≡ de_vpn (a ∷ xs) ++ sem_vpn (a ∷ xs)
partes_vpn a xs t = ground (arith, t)

partes_outro :
    (a : EnderecoLocal) (xs : List EnderecoLocal)
    → a.vpn ≡ false
    → de_vpn xs ++ (a ∷ sem_vpn xs) ≡ de_vpn (a ∷ xs) ++ sem_vpn (a ∷ xs)
partes_outro a xs f = ground (arith, f)

ordenar-partes : (xs : List EnderecoLocal) → ordenar xs ≡ de_vpn xs ++ sem_vpn xs
unfolding ordenar
ordenar-partes [] = refl
ordenar-partes (a ∷ xs) = elim (Bool-cases a.vpn) [
  | inl t ↦
      ap (inserir_estavel a) (ordenar-partes xs)
      ∙ inserir_vpn a (de_vpn xs ++ sem_vpn xs) t
      ∙ partes_vpn a xs t
  | inr f ↦
      ap (inserir_estavel a) (ordenar-partes xs) ∙ inserir_atras a xs xs f ∙ partes_outro a xs f
]

-- EnderecosLocais lists first the addresses of the ranges of Radmin and Hamachi and then the others,
-- each group in the order in which the interfaces give them, and no others.
pub enderecos_locais-partes :
    (interfaces : List Interface)
    → enderecos_locais (some interfaces)
      ≡ de_vpn (achados interfaces) ++ sem_vpn (achados interfaces)
unfolding enderecos_locais
enderecos_locais-partes interfaces = ordenar-partes (achados interfaces)
