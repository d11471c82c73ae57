-- ===== src/Monomorphize/Tests.antt =====
-- A run of the expansion, and the theorems on it at concrete inputs.
use flow_arrow.Prelude.{
  suc, panic, out_of_fuel, inl, ◌≡◌, ◌≢◌, refl, false, List, [], ◌∷◌, ◌++◌, Text, codes, text_eq,
  Text-discrete, decide, ℕ_discrete, ok, err, All,
}
use flow_arrow.Ast.{
  NodeParam, Callable, Endpoint, Stage, Decl, Module, BindingTarget, stage, no_stages,
}
use flow_arrow.NodeRef.{
  parse_static_node_ref, split_less, strip_greater, parse_args, split_comma, trim, trim_start,
  trim_end,
}
use flow_arrow.Monomorphize.{
  sanitize_name, instance_name, find, texts_eq, key_eq, find_instance, is_active, rewrite_node_name,
  instantiate, collect_templates, new, expand_loop, expand_module,
}
use flow_arrow.Monomorphize.Rewrite.{
  pure, ◌>>=◌, fail, rewrite_endpoint, rewrite_chains, rewrite_callable_refs, recursive_instance,
}
use flow_arrow.Monomorphize.Expanded.{
  IsExpanded, expand_module-IsExpanded, expand_module_not_recursive,
}
use flow_arrow.Monomorphize.Total.{key_count, expand_module_total}
use flow_arrow.Monomorphize.Names.{instance_name-collides}

abbrev callable : Text → List NodeParam → Text → Callable
callable name params node = record {
  name = name;
  is_extern = false;
  node_params = params;
  inputs = [];
  outputs = [];
  chains =
      record {
        source = Endpoint.variable (codes "x");
        stages =
            stage (Stage.endpoint (Endpoint.name node))
              (stage (Stage.bind (BindingTarget.variable (codes "y"))) no_stages);
      }
      ∷ [];
}

abbrev param : NodeParam
param = record { name = codes "g"; input = codes "i32"; output = codes "i32" }

-- `f<g>` applies `g`, and the program applies `f<h>`.
abbrev source : Module
source = record {
  declarations =
      Decl.node_decl (callable (codes "f") (param ∷ []) (codes "g"))
      ∷ Decl.program (callable (codes "main") [] (codes "f<h>"))
      ∷ [];
}

abbrev target : Module
target = record {
  declarations =
      Decl.program (callable (codes "main") [] (codes "__flow_inst_f_h"))
      ∷ Decl.node_decl (callable (codes "__flow_inst_f_h") [] (codes "h"))
      ∷ [];
}

expand_module_run : expand_module 2 source ≡ ok target
unfolding expand_module expand_loop new collect_templates instantiate rewrite_node_name is_active
    find_instance key_eq texts_eq find instance_name sanitize_name pure ◌>>=◌ fail rewrite_endpoint
    rewrite_chains rewrite_callable_refs parse_static_node_ref split_less strip_greater parse_args
    split_comma trim trim_start trim_end text_eq Text-discrete decide ℕ_discrete
expand_module_run = refl

expand_module-IsExpanded_example : All IsExpanded target.declarations
expand_module-IsExpanded_example = expand_module-IsExpanded 2 source target expand_module_run

expand_module_not_recursive_example :
    expand_module 2 source ≢ err (recursive_instance (codes "f<h>"))
expand_module_not_recursive_example = expand_module_not_recursive 2 source (codes "f<h>")

instance_name-collides_example :
    instance_name (codes "f") (codes "a" ∷ codes "b" ∷ [])
    ≡ instance_name (codes "f" ++ b'_' ∷ codes "a") (codes "b" ∷ [])
instance_name-collides_example = instance_name-collides (codes "f") (codes "a") (codes "b" ∷ [])

-- The argument of `f<h>` is the only one.
expand_module_total_example :
    (expand_module (suc (key_count (codes "h" ∷ []) source)) source ≢ panic)
    × (expand_module (suc (key_count (codes "h" ∷ []) source)) source ≢ out_of_fuel)
unfolding parse_static_node_ref split_less strip_greater parse_args split_comma trim trim_start
    trim_end
expand_module_total_example =
    expand_module_total source (codes "h" ∷ [])
      ((((tt, (tt, (tt, tt))), tt)), (((tt, ((inl refl, tt), (tt, tt))), tt), tt))
