-- ===== src/Sfu/Stun.antt =====
-- src/sfu.go, descobrirIPPublico: the request to the STUN server and the search in its answer. The
-- network is a function from the datagram sent to the one that comes back, or none; the identifier of
-- the transaction is random, and none stands for an error of its reader.
pub mod Resposta
pub mod Rodadas
use Prim.Native.Nat.{bit_xor}
use greenlabs_server.Comum.{
  ℕ, zero, suc, ◌+◌, ◌*◌, ◌-◌, ◌%◌, Bool, true, false, ◌&&◌, Option, none, some, List, [], ◌∷◌,
  ◌++◌, ◌==◌, ltb, leb, if◌then◌else◌, length, take, drop,
}
use greenlabs_server.Comum.Texto.{Texto, codes}
use greenlabs_server.Hub.Formato.{itoa}

unfoldable pub pedido_stun : List ℕ → List ℕ
pedido_stun transacao = 0x00 ∷ 0x01 ∷ 0 ∷ 0 ∷ 0x21 ∷ 0x12 ∷ 0xA4 ∷ 0x42 ∷ take 12 transacao

-- The byte at a place that the guards found to be there.
abbrev pub octeto : ℕ → List ℕ → ℕ
octeto i [] = 0
octeto zero (x ∷ xs) = x
octeto (suc i) (x ∷ xs) = octeto i xs

-- The four bytes of the address, with those of the cookie taken off.
unfoldable pub ip_mapeado : List ℕ → List ℕ
ip_mapeado valor =
    bit_xor (octeto 4 valor) 0x21
    ∷ bit_xor (octeto 5 valor) 0x12
    ∷ bit_xor (octeto 6 valor) 0xA4
    ∷ bit_xor (octeto 7 valor) 0x42
    ∷ []

unfoldable pub alinhar : ℕ → ℕ
alinhar avanco = if avanco % 4 == 0 then avanco else avanco + (4 - avanco % 4)

-- The loop over the attributes, with `k` rounds at most. Behind the four bytes of an attribute's
-- head, `resto` is what is left of the body.
unfoldable pub procurar : ℕ → List ℕ → Option (List ℕ)
unfolding ip_mapeado alinhar
procurar zero corpo = none
procurar (suc k) [] = none
procurar (suc k) (a ∷ []) = none
procurar (suc k) (a ∷ b ∷ []) = none
procurar (suc k) (a ∷ b ∷ c ∷ []) = none
procurar (suc k) (a ∷ b ∷ c ∷ d ∷ resto) =
    let tamanho = c * 256 + d in
    let valor = take tamanho resto in
    let avanco = alinhar (4 + tamanho) in
    let depois = procurar k (drop (avanco - 4) resto) in
    if ltb (4 + length resto) (4 + tamanho)
    then none
    else if (a * 256 + b == 0x0020) && leb 8 (length valor) && (octeto 1 valor == 0x01)
    then some (ip_mapeado valor)
    else if ltb (4 + length resto) avanco
    then none
    else depois

-- net.IP.String of four bytes.
unfoldable pub texto_do_ip : List ℕ → Texto
texto_do_ip ip =
    itoa (octeto 0 ip)
    ++ (codes "."
        ++ (itoa (octeto 1 ip)
            ++ (codes "." ++ (itoa (octeto 2 ip) ++ (codes "." ++ itoa (octeto 3 ip))))))

-- The answer goes into a buffer of 512 bytes.
unfoldable pub ler_resposta : List ℕ → Texto
unfolding procurar texto_do_ip
ler_resposta datagrama =
    let resposta = take 512 datagrama in
    let corpo = drop 20 resposta in
    if ltb (length resposta) 20
    then []
    else elim (procurar (length corpo) corpo) [ none ↦ [] | some ip ↦ texto_do_ip ip ]

unfoldable pub descobrir_ip_publico : (List ℕ → Option (List ℕ)) → Option (List ℕ) → Texto
unfolding pedido_stun ler_resposta
descobrir_ip_publico rede none = []
descobrir_ip_publico rede (some transacao) = elim (rede (pedido_stun transacao)) [
  | none ↦ []
  | some datagrama ↦ ler_resposta datagrama
]
