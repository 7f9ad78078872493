-- ===== src/Lambda/Resolve.antt =====
-- The captures of a lambda in src/dachs/semantics/lambda_capture_resolver.hpp.
use dachs.Base.{
  ℕ, suc, ◌≡◌, refl, ap, sym, ◌∙◌, inl, inr, Bool, true, false, ◌||◌, Option, none, some, List, [],
  ◌∷◌, map, any_b, ◌==◌, Bool-cases, All, length, arith,
}
use mathlib.Core.Path.{subst}
use dachs.Base.Defined.{bind-some, some_inj}
use dachs.Types.{VarSymbol, FuncScope, Store}
use dachs.Scope.{Scope}
use dachs.Scope.Capture.{is_captured}
use dachs.Lambda.{
  Tree, Trees, var_ref, block, lambda_expr, node, no_trees, trees, Capture, Resolver, no_captures,
  get_symbol_from_var, add_capture, add_if_captured, visit_symbol, resolve, resolve_all,
  resolve_lambda_captures,
}

-- A capture is of a variable that is neither builtin nor global, and that is captured in some
-- scope.
pub record IsCapture (S : Store) (fuel : ℕ) (f : FuncScope) (c : Capture) : Type 0 where
  pub not_builtin : (c.refered_symbol.is_builtin || c.refered_symbol.is_global) ≡ false
  pub scope : Scope
  pub captured : is_captured S fuel c.refered_symbol f scope ≡ some true
  pub same_type : c.introduced_type ≡ c.refered_symbol.ty

-- Offsets count from 0, and no symbol is captured twice.
abbrev pub IsLaidOut : List Capture → Type 0
IsLaidOut [] = Unit
IsLaidOut (c ∷ cs) =
    (c.offset ≡ length cs)
    × All (λ d. (d.refered_symbol.id == c.refered_symbol.id) ≡ false) cs
    × IsLaidOut cs

pub record IsResolver (S : Store) (fuel : ℕ) (f : FuncScope) (r : Resolver) : Type 0 where
  pub laid_out : IsLaidOut r.captures
  pub next_offset : r.offset ≡ length r.captures
  pub keys : r.sym_map ≡ map (λ c. c.refered_symbol.id) r.captures
  pub captures_ok : All (IsCapture S fuel f) r.captures

new_symbol :
    (s : VarSymbol) (cs : List Capture)
    → any_b (λ i. i == s.id) (map (λ c. c.refered_symbol.id) cs) ≡ false
    → All (λ d. (d.refered_symbol.id == s.id) ≡ false) cs
new_symbol s [] e = tt
new_symbol s (c ∷ cs) e = (ground arith, new_symbol s cs (ground arith))

module _ (S : Store) (fuel : ℕ) (f : FuncScope) where
  no_captures-IsResolver : IsResolver S fuel f no_captures
  no_captures-IsResolver = record {
    laid_out = tt;
    next_offset = refl;
    keys = refl;
    captures_ok = tt;
  }

  add_capture-IsResolver :
      (s : VarSymbol) (r : Resolver) (scope : Scope)
      → (s.is_builtin || s.is_global) ≡ false
      → is_captured S fuel s f scope ≡ some true
      → any_b (λ i. i == s.id) r.sym_map ≡ false
      → IsResolver S fuel f r
      → IsResolver S fuel f (add_capture s r)
  add_capture-IsResolver s r scope local captured fresh h = record {
    laid_out = (
      h.next_offset,
      new_symbol s r.captures (ap (λ ks. any_b (λ i. i == s.id) ks) (sym h.keys) ∙ fresh),
      h.laid_out,
    );
    next_offset = ap suc h.next_offset;
    keys = ap (λ ks. s.id ∷ ks) h.keys;
    captures_ok = (
      record { not_builtin = local; scope = scope; captured = captured; same_type = refl },
      h.captures_ok,
    );
  }

  add_if_captured-IsResolver :
      (captured : Bool) (s : VarSymbol) (r : Resolver) (scope : Scope)
      → (s.is_builtin || s.is_global) ≡ false
      → is_captured S fuel s f scope ≡ some captured
      → IsResolver S fuel f r
      → IsResolver S fuel f (add_if_captured captured s r)
  add_if_captured-IsResolver false s r scope local e h = h
  add_if_captured-IsResolver true s r scope local e h =
      elim (Bool-cases (any_b (λ i. i == s.id) r.sym_map)) [
        | inl y ↦ rw y h
        | inr n ↦ rw n (add_capture-IsResolver s r scope local e n h)
      ]

  visit_symbol-IsResolver :
      (scope : Scope) (o : Option VarSymbol) (r : Resolver) {r' : Resolver}
      → visit_symbol S fuel f scope o r ≡ some r'
      → IsResolver S fuel f r
      → IsResolver S fuel f r'
  unfolding visit_symbol
  visit_symbol-IsResolver scope none r e h = subst (IsResolver S fuel f) (some_inj e) h
  visit_symbol-IsResolver scope (some s) r {r'} e h =
      elim (Bool-cases (s.is_builtin || s.is_global)) [
        | inl y ↦ subst (IsResolver S fuel f) (some_inj (rw (y, visit_symbol) at e)) h
        | inr n ↦
            let (captured, ec, e1) =
              bind-some (is_captured S fuel s f scope) _ (rw (n, visit_symbol) at e) in
            subst (IsResolver S fuel f) (some_inj e1)
              (add_if_captured-IsResolver captured s r scope n ec h)
      ]

  mutual
    unfolding resolve

    resolve-IsResolver :
        (scope : Scope) (t : Tree) (r : Resolver) {r' : Resolver}
        → resolve S fuel f scope t r ≡ some r'
        → IsResolver S fuel f r
        → IsResolver S fuel f r'
    resolve-IsResolver scope (var_ref name s) r e h =
        visit_symbol-IsResolver scope (get_symbol_from_var scope name s) r e h
    resolve-IsResolver scope (block inner ts) r e h = resolve_all-IsResolver inner ts r e h
    resolve-IsResolver scope (lambda_expr receiver) r e h = resolve-IsResolver scope receiver r e h
    resolve-IsResolver scope (node ts) r e h = resolve_all-IsResolver scope ts r e h

    resolve_all-IsResolver :
        (scope : Scope) (ts : Trees) (r : Resolver) {r' : Resolver}
        → resolve_all S fuel f scope ts r ≡ some r'
        → IsResolver S fuel f r
        → IsResolver S fuel f r'
    resolve_all-IsResolver scope no_trees r e h = subst (IsResolver S fuel f) (some_inj e) h
    resolve_all-IsResolver scope (trees t ts) r e h =
        let (r1, e1, e2) = bind-some (resolve S fuel f scope t r) _ e in
        resolve_all-IsResolver scope ts r1 e2 (resolve-IsResolver scope t r e1 h)

  -- The captures of a lambda that is resolved have the offsets from 0 in the order in which
  -- they were made, no symbol is captured twice, and each is neither builtin nor global and is
  -- captured in some scope.
  pub resolve_lambda_captures-IsLaidOut :
      (enclosing : Scope) (search_root : Tree) {cs : List Capture}
      → resolve_lambda_captures S fuel f enclosing search_root ≡ some cs
      → IsLaidOut cs × All (IsCapture S fuel f) cs
  unfolding resolve_lambda_captures
  resolve_lambda_captures-IsLaidOut enclosing search_root {cs} e =
      let (r, er, e1) =
        bind-some (resolve S fuel f (Scope.func_scope f enclosing) search_root no_captures) _ e in
      let h = resolve-IsResolver _ search_root no_captures er no_captures-IsResolver in
      subst (λ xs. IsLaidOut xs × All (IsCapture S fuel f) xs) (some_inj e1)
        (h.laid_out, h.captures_ok)
