-- ===== src/Registro/Uuid.antt =====
-- src/util.go, novoUUID: the identifiers of the peers.
pub mod Forma
pub mod Molde
use Prim.Native.Nat.{bit_and, bit_or}
use greenlabs_server.Comum.{
  ℕ, suc, ◌+◌, ◌*◌, ◌/◌, ◌%◌, ◌^◌, ◌-◌, ◌<◌, ◌≡◌, refl, sym, ap, ◌∙◌, subst, Bool, true, false,
  ◌&&◌, ◌||◌, Option, none, some, List, [], ◌∷◌, ◌++◌, leb, ltb, ◌==◌, if◌then◌else◌, take, drop,
}
use greenlabs_server.Comum.Texto.{Texto, codes}
use greenlabs_server.Hub.Formato.{digito_hex}
use greenlabs_server.Websocket.Escrita.{be64}

-- The sixteen bytes: those of crypto/rand, or of the clock and the process when it fails.
unfoldable pub bytes_sorteados : Option (List ℕ) → ℕ → ℕ → List ℕ
unfolding be64
bytes_sorteados (some b) nanos pid = b
bytes_sorteados none nanos pid = be64 nanos ++ be64 pid

unfoldable pub com_versao : List ℕ → List ℕ
com_versao (a ∷ b ∷ c ∷ d ∷ e ∷ f ∷ g ∷ h ∷ i ∷ resto) =
    a ∷ b ∷ c ∷ d ∷ e ∷ f ∷ bit_or (bit_and g 0x0f) 0x40 ∷ h ∷ bit_or (bit_and i 0x3f) 0x80 ∷ resto
com_versao outros = outros

-- "%x" of bytes.
unfoldable pub em_hex : List ℕ → Texto
unfolding digito_hex
em_hex [] = []
em_hex (b ∷ bs) = digito_hex (b / 16) ∷ digito_hex (b % 16) ∷ em_hex bs

unfoldable pub texto_uuid : List ℕ → Texto
unfolding em_hex
texto_uuid b =
    em_hex (take 4 b)
    ++ (codes "-"
        ++ (em_hex (take 2 (drop 4 b))
            ++ (codes "-"
                ++ (em_hex (take 2 (drop 6 b))
                    ++ (codes "-"
                        ++ (em_hex (take 2 (drop 8 b))
                            ++ (codes "-" ++ em_hex (take 6 (drop 10 b)))))))))

unfoldable pub novo_uuid : Option (List ℕ) → ℕ → ℕ → Texto
unfolding bytes_sorteados com_versao texto_uuid
novo_uuid sorteio nanos pid = texto_uuid (com_versao (bytes_sorteados sorteio nanos pid))
