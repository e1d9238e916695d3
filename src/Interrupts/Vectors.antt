-- ===== src/Interrupts/Vectors.antt =====
-- Kernel/idtLoader.c: the table of interrupt descriptors.
use boke_os.Base.{
  ℕ, ◌+◌, ◌*◌, ◌/◌, ◌%◌, ◌<◌, ◌≡◌, refl, sym, ◌∙◌, arith, Bool-cases, inl, inr, true, false, Option,
  none, some, update, ◌==◌, if◌then◌else◌,
}
use mathlib.Core.Path.{subst}

-- `DESCR_INT`
pub record Descriptor : Type 0 where
  pub offset_l : ℕ
  pub selector : ℕ
  pub cero : ℕ
  pub access : ℕ
  pub offset_m : ℕ
  pub offset_h : ℕ
  pub other_cero : ℕ

-- The addresses of the handlers of interrupts.asm.
pub record Handlers : Type 0 where
  pub irq00 : ℕ
  pub exception0 : ℕ
  pub exception6 : ℕ
  pub exception13 : ℕ
  pub irq01 : ℕ
  pub irq60 : ℕ

-- `setup_IDT_entry`: `ACS_INT` is 0x8E.
unfoldable pub setup_idt_entry : (ℕ → Descriptor) → (index offset : ℕ) → ℕ → Descriptor
setup_idt_entry idt index offset = update idt index (record {
  offset_l = offset % 65536;
  selector = 8;
  cero = 0;
  access = 142;
  offset_m = offset / 65536 % 65536;
  offset_h = offset / 4294967296 % 4294967296;
  other_cero = 0;
})

-- `load_idt`, with the masks of the two interrupt controllers behind the table.
unfoldable pub load_idt : Handlers → (ℕ → Descriptor) → (ℕ → Descriptor) × ℕ × ℕ
load_idt h idt =
    let idt1 = setup_idt_entry idt 32 h.irq00 in
    let idt2 = setup_idt_entry idt1 0 h.exception0 in
    let idt3 = setup_idt_entry idt2 6 h.exception6 in
    let idt4 = setup_idt_entry idt3 13 h.exception13 in
    let idt5 = setup_idt_entry idt4 33 h.irq01 in
    let idt6 = setup_idt_entry idt5 128 h.irq60 in (idt6, 252, 255)

-- The address that the processor puts together from a descriptor.
unfoldable pub offset_of : Descriptor → ℕ
offset_of d = d.offset_l + d.offset_m * 65536 + d.offset_h * 4294967296

-- A descriptor of an interrupt gate in the kernel's code, with fields that fit, for an address.
pub record Gate (d : Descriptor) (offset : ℕ) : Type 0 where
  pub leads : offset_of d ≡ offset
  pub selects : d.selector ≡ 8
  pub gate : d.access ≡ 142
  pub low : d.offset_l < 65536
  pub middle : d.offset_m < 65536
  pub high : d.offset_h < 4294967296

-- The handler that an interrupt is meant for.
unfoldable pub handler_of : Handlers → ℕ → Option ℕ
handler_of h i =
    if i == 0
    then some h.exception0
    else if i == 6
    then some h.exception6
    else if i == 13
    then some h.exception13
    else if i == 32
    then some h.irq00
    else if i == 33
    then some h.irq01
    else if i == 128
    then some h.irq60
    else none

whole :
    (a : ℕ)
    → a < 18446744073709551616
    → a % 65536 + a / 65536 % 65536 * 65536 + a / 4294967296 % 4294967296 * 4294967296 ≡ a
whole a h = omega arith

entry-Gate :
    (idt : ℕ → Descriptor) (j a i : ℕ)
    → (i == j) ≡ true
    → a < 18446744073709551616
    → Gate (setup_idt_entry idt j a i) a
unfolding setup_idt_entry offset_of
entry-Gate idt j a i e h = rw e (record {
  leads = whole a h;
  selects = refl;
  gate = refl;
  low = omega arith;
  middle = omega arith;
  high = omega arith;
})

entry-other :
    (idt : ℕ → Descriptor) (j a i : ℕ) → (i == j) ≡ false → setup_idt_entry idt j a i ≡ idt i
unfolding setup_idt_entry
entry-other idt j a i e = rw e refl

-- The other entry of two leaves the gates as they are.
keep-Gate :
    (idt : ℕ → Descriptor) (j b i a : ℕ)
    → ((i == j) ≡ true → b ≡ a)
    → ((i == j) ≡ false → Gate (idt i) a)
    → a < 18446744073709551616
    → Gate (setup_idt_entry idt j b i) a
keep-Gate idt j b i a here there h = elim (Bool-cases (i == j)) [
  | inl e ↦
      subst (λ c. Gate (setup_idt_entry idt j b i) c) (here e)
        (entry-Gate idt j b i e (subst (λ c. c < 18446744073709551616) (sym (here e)) h))
  | inr e ↦ rw (entry-other idt j b i e) (there e)
]

-- After `load_idt`, every interrupt that has a handler below 2^64 has a gate whose fields fit and
-- lead to that handler.
pub load_idt-Gate :
    (h : Handlers) (idt : ℕ → Descriptor) (i a : ℕ)
    → handler_of h i ≡ some a
    → a < 18446744073709551616
    → Gate ((load_idt h idt).0 i) a
unfolding load_idt handler_of
load_idt-Gate h idt i a e l =
    keep-Gate _ 128 h.irq60 i a (λ x. ground arith)
      (λ x6.
        keep-Gate _ 33 h.irq01 i a (λ x. ground arith)
          (λ x5.
            keep-Gate _ 13 h.exception13 i a (λ x. ground arith)
              (λ x4.
                keep-Gate _ 6 h.exception6 i a (λ x. ground arith)
                  (λ x3.
                    keep-Gate _ 0 h.exception0 i a (λ x. ground arith)
                      (λ x2.
                        keep-Gate _ 32 h.irq00 i a (λ x. ground arith) (λ x1. absurd (ground arith))
                          l)
                      l)
                  l)
              l)
          l)
      l

-- The other interrupts keep what the table held for them.
load_idt-other :
    (h : Handlers) (idt : ℕ → Descriptor) (i : ℕ)
    → handler_of h i ≡ none
    → (load_idt h idt).0 i ≡ idt i
unfolding load_idt handler_of
load_idt-other h idt i e =
    entry-other _ 128 h.irq60 i (ground arith)
    ∙ entry-other _ 33 h.irq01 i (ground arith)
    ∙ entry-other _ 13 h.exception13 i (ground arith)
    ∙ entry-other _ 6 h.exception6 i (ground arith)
    ∙ entry-other _ 0 h.exception0 i (ground arith)
    ∙ entry-other idt 32 h.irq00 i (ground arith)
