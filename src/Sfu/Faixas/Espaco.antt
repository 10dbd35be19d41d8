-- ===== src/Sfu/Faixas/Espaco.antt =====
-- src/sfu.go: how far apart a publisher is asked for key frames.
use greenlabs_server.Comum.{
  ℕ, ◌+◌, ◌≤◌, ◌≡◌, Bool, true, false, Option, none, some, ◌||◌, ◌&&◌, ◌==◌, refl, List, [], ◌∷◌,
  ltb, if◌then◌else◌, if_cases, arith,
}
use greenlabs_server.Sfu.{Faixa}
use greenlabs_server.Sfu.Faixas.{intervalo_de_chave, permitir_chave}

-- The times, of those at which a key frame is wanted, at which it is asked for.
unfoldable pub pedidos : List ℕ → Faixa → List ℕ
unfolding permitir_chave
pedidos [] f = []
pedidos (t ∷ ts) f =
    let (f', pode) = permitir_chave t f in
    let resto = pedidos ts f' in if pode then t ∷ resto else resto

-- Each is an interval or more behind the one before, the first behind `antes`.
abbrev pub IsEspacada : Option ℕ → List ℕ → Type 0
IsEspacada antes [] = Unit {0}
IsEspacada none (t ∷ ts) = IsEspacada (some t) ts
IsEspacada (some a) (t ∷ ts) = (a + intervalo_de_chave ≤ t) × IsEspacada (some t) ts

-- The time `t` is one at which a key frame was asked for, or less than an interval behind one.
abbrev pub perto : ℕ → List ℕ → Bool
perto t [] = false
perto t (q ∷ qs) = t == q || ltb t (q + intervalo_de_chave) || perto t qs

abbrev pub todos_perto : List ℕ → List ℕ → Bool
todos_perto [] qs = true
todos_perto (t ∷ ts) qs = perto t qs && todos_perto ts qs

-- With the one before all of them, if there is one.
abbrev pub com_anterior : Option ℕ → List ℕ → List ℕ
com_anterior none qs = qs
com_anterior (some a) qs = a ∷ qs

todos_perto_mais :
    (ts : List ℕ) (a : Option ℕ) (qs : List ℕ)
    → todos_perto ts qs ≡ true
    → todos_perto ts (com_anterior a qs) ≡ true
todos_perto_mais [] a qs k = refl
todos_perto_mais (t ∷ ts) none qs k = k
todos_perto_mais (t ∷ ts) (some a) qs k = ground (arith, todos_perto_mais ts (some a) qs)

-- One more key frame wanted, by what became of it.
abbrev pub Atende : List ℕ → Option ℕ → List ℕ → Type 0
Atende ts antes qs = IsEspacada antes qs × (todos_perto ts (com_anterior antes qs) ≡ true)

pedido-Atende :
    (t : ℕ) (ts : List ℕ) (antes : Option ℕ) (qs : List ℕ)
    → Atende ts (some t) qs
    → (IsEspacada antes (t ∷ []))
    → Atende (t ∷ ts) antes (t ∷ qs)
pedido-Atende t ts none qs (a, b) k = (a, ground arith)
pedido-Atende t ts (some u) qs (a, b) k =
    ((k.0, a), ground (arith, todos_perto_mais ts (some u) (t ∷ qs)))

abbrev recente : Option ℕ → ℕ → Bool
recente none t = false
recente (some a) t = ltb t (a + intervalo_de_chave)

pedidos_passo :
    (t : ℕ) (ts : List ℕ) (f : Faixa)
    → pedidos (t ∷ ts) f ≡ (
        if recente f.ultima_chave t
        then pedidos ts f
        else t ∷ pedidos ts (record f { ultima_chave = some t }))
unfolding pedidos permitir_chave
pedidos_passo t ts f = ground arith

recusado-Atende :
    (t : ℕ) (ts : List ℕ) (antes : Option ℕ) (qs : List ℕ)
    → Atende ts antes qs
    → recente antes t ≡ true
    → Atende (t ∷ ts) antes qs
recusado-Atende t ts none qs (a, b) k = absurd (ground arith)
recusado-Atende t ts (some u) qs (a, b) k = (a, ground arith)

longe-IsEspacada : (t : ℕ) (antes : Option ℕ) → recente antes t ≡ false → IsEspacada antes (t ∷ [])
longe-IsEspacada t none k = tt
longe-IsEspacada t (some a) k = (ground arith, tt)

-- permitirChave, at whatever times a key frame is wanted: those at which it is asked for are 500 ms or
-- more apart, and one that is wanted and not asked for is less than 500 ms behind one that was.
pub pedidos-Atende : (ts : List ℕ) (f : Faixa) → Atende ts f.ultima_chave (pedidos ts f)
unfolding pedidos
pedidos-Atende [] f = (tt, refl)
pedidos-Atende (t ∷ ts) f = rw (pedidos_passo t ts f) (
    if_cases (Atende (t ∷ ts) f.ultima_chave) (recente f.ultima_chave t)
      (recusado-Atende t ts f.ultima_chave (pedidos ts f) (pedidos-Atende ts f))
      (λ k.
        pedido-Atende t ts f.ultima_chave (pedidos ts (record f { ultima_chave = some t }))
          (pedidos-Atende ts (record f { ultima_chave = some t }))
          (longe-IsEspacada t f.ultima_chave k)))
