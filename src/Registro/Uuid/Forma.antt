-- ===== src/Registro/Uuid/Forma.antt =====
-- src/util.go, novoUUID: the form of the identifiers, and reading them back.
use greenlabs_server.Comum.{
  ℕ, ◌+◌, ◌%◌, ◌≡◌, refl, ap, ◌∙◌, true, Option, none, some, List, [], ◌∷◌, ◌++◌, length, All,
  arith,
}
use greenlabs_server.Comum.Bits.{IsByte, set_high_nibble_4, set_high_bits_10}
use greenlabs_server.Comum.Texto.{Texto, codes}
use greenlabs_server.Websocket.Escrita.{be64}
use greenlabs_server.Registro.Uuid.Molde.{
  forma_v4, tem_forma, ler_uuid, tem_forma_grupo, tem_forma_versoes, ler_uuid_grupo, ler_uuid_bloco,
}
use greenlabs_server.Registro.Uuid.{bytes_sorteados, com_versao, em_hex, texto_uuid, novo_uuid}

abbrev fim_v4 : Texto
fim_v4 = codes "-xxxxxxxxxxxx"

-- The identifier of sixteen bytes, with the two fixed fields as numbers.
texto_uuid_forma :
    (a b c d e f g h i j k l m n o p : ℕ)
    → All IsByte (a ∷ b ∷ c ∷ d ∷ e ∷ f ∷ g ∷ h ∷ i ∷ j ∷ k ∷ l ∷ m ∷ n ∷ o ∷ p ∷ [])
    → tem_forma forma_v4 (
        texto_uuid (
          a
          ∷ b
          ∷ c
          ∷ d
          ∷ e
          ∷ f
          ∷ (64 + g % 16)
          ∷ h
          ∷ (128 + i % 64)
          ∷ j
          ∷ k
          ∷ l
          ∷ m
          ∷ n
          ∷ o
          ∷ p
          ∷ []))
      ≡ true
unfolding texto_uuid em_hex tem_forma
texto_uuid_forma a b c d e f g h i j k l m n o p
      (ha, (hb, (hc, (hd, (he, (hf, (hg, (hh, (hi, (hj, resto)))))))))) =
    let t6 = em_hex (k ∷ l ∷ m ∷ n ∷ o ∷ p ∷ []) in
    let t3 =
      em_hex ((64 + g % 16) ∷ h ∷ [])
      ++ (b'-' ∷ (em_hex ((128 + i % 64) ∷ j ∷ []) ++ (b'-' ∷ t6))) in
    tem_forma_grupo (a ∷ b ∷ c ∷ d ∷ []) (codes "-xxxx-4xxx-yxxx-xxxxxxxxxxxx")
      (b'-' ∷ (em_hex (e ∷ f ∷ []) ++ (b'-' ∷ t3))) (ha, (hb, (hc, (hd, tt))))
    ∙ tem_forma_grupo (e ∷ f ∷ []) (codes "-4xxx-yxxx-xxxxxxxxxxxx") (b'-' ∷ t3) (he, (hf, tt))
    ∙ tem_forma_versoes g h i j fim_v4 (b'-' ∷ t6) hg hh hi hj
    ∙ tem_forma_grupo (k ∷ l ∷ m ∷ n ∷ o ∷ p ∷ []) [] [] resto

ler_uuid_texto :
    (a b c d e f g h i j k l m n o p : ℕ)
    → All IsByte (a ∷ b ∷ c ∷ d ∷ e ∷ f ∷ g ∷ h ∷ i ∷ j ∷ k ∷ l ∷ m ∷ n ∷ o ∷ p ∷ [])
    → ler_uuid (texto_uuid (a ∷ b ∷ c ∷ d ∷ e ∷ f ∷ g ∷ h ∷ i ∷ j ∷ k ∷ l ∷ m ∷ n ∷ o ∷ p ∷ []))
      ≡ a ∷ b ∷ c ∷ d ∷ e ∷ f ∷ g ∷ h ∷ i ∷ j ∷ k ∷ l ∷ m ∷ n ∷ o ∷ p ∷ []
unfolding texto_uuid em_hex ler_uuid
ler_uuid_texto a b c d e f g h i j k l m n o p
      (ha, (hb, (hc, (hd, (he, (hf, (hg, (hh, (hi, (hj, resto)))))))))) =
    let t6 = em_hex (k ∷ l ∷ m ∷ n ∷ o ∷ p ∷ []) in
    let t5 = em_hex (i ∷ j ∷ []) ++ (b'-' ∷ t6) in
    let t4 = em_hex (g ∷ h ∷ []) ++ (b'-' ∷ t5) in
    let t3 = em_hex (e ∷ f ∷ []) ++ (b'-' ∷ t4) in
    ler_uuid_grupo (a ∷ b ∷ c ∷ d ∷ []) (b'-' ∷ t3) (ha, (hb, (hc, (hd, tt))))
    ∙ ap (λ (r : List ℕ). a ∷ b ∷ c ∷ d ∷ r)
        (ler_uuid_bloco e (f ∷ []) (b'-' ∷ t4) (he, (hf, tt))
          ∙ ap (λ (r : List ℕ). e ∷ f ∷ r)
              (ler_uuid_bloco g (h ∷ []) (b'-' ∷ t5) (hg, (hh, tt))
                ∙ ap (λ (r : List ℕ). g ∷ h ∷ r)
                    (ler_uuid_bloco i (j ∷ []) (b'-' ∷ t6) (hi, (hj, tt))
                      ∙ ap (λ (r : List ℕ). i ∷ j ∷ r)
                          (ler_uuid_bloco k (l ∷ m ∷ n ∷ o ∷ p ∷ []) [] resto))))

-- What crypto/rand gives, when it does: sixteen bytes.
abbrev pub IsSorteio : Option (List ℕ) → Type 0
IsSorteio none = Unit
IsSorteio (some b) = (length b ≡ 16) × All IsByte b

be64-IsByte : (n : ℕ) (bs : List ℕ) → All IsByte bs → All IsByte (be64 n ++ bs)
unfolding be64
be64-IsByte n bs h = (
  ground arith,
  (
    ground arith,
    (
      ground arith,
      (ground arith, (ground arith, (ground arith, (ground arith, (ground arith, h))))),
    ),
  ),
)

bytes_sorteados-IsByte :
    (sorteio : Option (List ℕ)) (nanos pid : ℕ)
    → IsSorteio sorteio
    → (length (bytes_sorteados sorteio nanos pid) ≡ 16)
      × All IsByte (bytes_sorteados sorteio nanos pid)
unfolding bytes_sorteados
bytes_sorteados-IsByte (some b) nanos pid h = h
bytes_sorteados-IsByte none nanos pid h =
    (unfold be64 in refl, be64-IsByte nanos (be64 pid) (be64-IsByte pid [] tt))

-- A list of sixteen is its sixteen elements.
dezesseis :
    (P : List ℕ → Type 0)
    → ((a b c d e f g h i j k l m n o p : ℕ)
        → P (a ∷ b ∷ c ∷ d ∷ e ∷ f ∷ g ∷ h ∷ i ∷ j ∷ k ∷ l ∷ m ∷ n ∷ o ∷ p ∷ []))
    → (bs : List ℕ) → length bs ≡ 16
    → P bs
dezesseis P fazer ([]) t = absurd (omega (arith, t))
dezesseis P fazer (a ∷ []) t = absurd (omega (arith, t))
dezesseis P fazer (a ∷ b ∷ []) t = absurd (omega (arith, t))
dezesseis P fazer (a ∷ b ∷ c ∷ []) t = absurd (omega (arith, t))
dezesseis P fazer (a ∷ b ∷ c ∷ d ∷ []) t = absurd (omega (arith, t))
dezesseis P fazer (a ∷ b ∷ c ∷ d ∷ e ∷ []) t = absurd (omega (arith, t))
dezesseis P fazer (a ∷ b ∷ c ∷ d ∷ e ∷ f ∷ []) t = absurd (omega (arith, t))
dezesseis P fazer (a ∷ b ∷ c ∷ d ∷ e ∷ f ∷ g ∷ []) t = absurd (omega (arith, t))
dezesseis P fazer (a ∷ b ∷ c ∷ d ∷ e ∷ f ∷ g ∷ h ∷ []) t = absurd (omega (arith, t))
dezesseis P fazer (a ∷ b ∷ c ∷ d ∷ e ∷ f ∷ g ∷ h ∷ i ∷ []) t = absurd (omega (arith, t))
dezesseis P fazer (a ∷ b ∷ c ∷ d ∷ e ∷ f ∷ g ∷ h ∷ i ∷ j ∷ []) t = absurd (omega (arith, t))
dezesseis P fazer (a ∷ b ∷ c ∷ d ∷ e ∷ f ∷ g ∷ h ∷ i ∷ j ∷ k ∷ []) t = absurd (omega (arith, t))
dezesseis P fazer (a ∷ b ∷ c ∷ d ∷ e ∷ f ∷ g ∷ h ∷ i ∷ j ∷ k ∷ l ∷ []) t = absurd (omega (arith, t))
dezesseis P fazer (a ∷ b ∷ c ∷ d ∷ e ∷ f ∷ g ∷ h ∷ i ∷ j ∷ k ∷ l ∷ m ∷ []) t =
    absurd (omega (arith, t))
dezesseis P fazer (a ∷ b ∷ c ∷ d ∷ e ∷ f ∷ g ∷ h ∷ i ∷ j ∷ k ∷ l ∷ m ∷ n ∷ []) t =
    absurd (omega (arith, t))
dezesseis P fazer (a ∷ b ∷ c ∷ d ∷ e ∷ f ∷ g ∷ h ∷ i ∷ j ∷ k ∷ l ∷ m ∷ n ∷ o ∷ []) t =
    absurd (omega (arith, t))
dezesseis P fazer (a ∷ b ∷ c ∷ d ∷ e ∷ f ∷ g ∷ h ∷ i ∷ j ∷ k ∷ l ∷ m ∷ n ∷ o ∷ p ∷ []) t =
    fazer a b c d e f g h i j k l m n o p
dezesseis P fazer (a ∷ b ∷ c ∷ d ∷ e ∷ f ∷ g ∷ h ∷ i ∷ j ∷ k ∷ l ∷ m ∷ n ∷ o ∷ p ∷ q ∷ resto) t =
    absurd (omega (arith, t))

-- The fixed fields, as numbers.
abbrev pub com_campos : List ℕ → List ℕ
com_campos (a ∷ b ∷ c ∷ d ∷ e ∷ f ∷ g ∷ h ∷ i ∷ resto) =
    a ∷ b ∷ c ∷ d ∷ e ∷ f ∷ (64 + g % 16) ∷ h ∷ (128 + i % 64) ∷ resto
com_campos outros = outros

com_dezesseis :
    (a b c d e f g h i j k l m n o p : ℕ)
    → All IsByte (a ∷ b ∷ c ∷ d ∷ e ∷ f ∷ g ∷ h ∷ i ∷ j ∷ k ∷ l ∷ m ∷ n ∷ o ∷ p ∷ [])
    → (tem_forma forma_v4 (
          texto_uuid
            (com_versao (a ∷ b ∷ c ∷ d ∷ e ∷ f ∷ g ∷ h ∷ i ∷ j ∷ k ∷ l ∷ m ∷ n ∷ o ∷ p ∷ [])))
        ≡ true)
      × (ler_uuid (
            texto_uuid
              (com_versao (a ∷ b ∷ c ∷ d ∷ e ∷ f ∷ g ∷ h ∷ i ∷ j ∷ k ∷ l ∷ m ∷ n ∷ o ∷ p ∷ [])))
          ≡ com_campos (a ∷ b ∷ c ∷ d ∷ e ∷ f ∷ g ∷ h ∷ i ∷ j ∷ k ∷ l ∷ m ∷ n ∷ o ∷ p ∷ []))
unfolding com_versao
com_dezesseis a b c d e f g h i j k l m n o p
      (ha, (hb, (hc, (hd, (he, (hf, (hg, (hh, (hi, resto))))))))) =
    rw (set_high_nibble_4 g hg, set_high_bits_10 i hi)
      (
        texto_uuid_forma a b c d e f g h i j k l m n o p
            (ha, (hb, (hc, (hd, (he, (hf, (hg, (hh, (hi, resto))))))))),
        ler_uuid_texto a b c d e f (64 + g % 16) h (128 + i % 64) j k l m n o p
            (ha, (hb, (hc, (hd, (he, (hf, (omega arith, (hh, (omega arith, resto))))))))),
      )

-- Whether crypto/rand gives sixteen bytes or fails, what novoUUID gives has the form of a version 4
-- identifier, xxxxxxxx-xxxx-4xxx-yxxx-xxxxxxxxxxxx with digits in lower case and y one of 8, 9, a and
-- b, and reading its digits gives back the sixteen bytes with version and variant in their places and
-- every other bit as it was drawn.
pub novo_uuid_forma :
    (sorteio : Option (List ℕ)) (nanos pid : ℕ)
    → IsSorteio sorteio
    → (tem_forma forma_v4 (novo_uuid sorteio nanos pid) ≡ true)
      × (ler_uuid (novo_uuid sorteio nanos pid) ≡ com_campos (bytes_sorteados sorteio nanos pid))
unfolding novo_uuid com_versao
novo_uuid_forma sorteio nanos pid h =
    let (t, bs) = bytes_sorteados-IsByte sorteio nanos pid h in
    dezesseis
      (λ (b : List ℕ).
        All IsByte b
        → (tem_forma forma_v4 (texto_uuid (com_versao b)) ≡ true)
          × (ler_uuid (texto_uuid (com_versao b)) ≡ com_campos b))
      com_dezesseis (bytes_sorteados sorteio nanos pid) t bs
