-- ===== src/Resolver/Spans/Examples.antt =====
-- resolver/query.go: merging two spans that touch.
use tillit.Base.{Bytes, codes, List, [], ◌∷◌, ◌≡◌, refl, ◌↔◌}
use tillit.Resolver.Verdict.{vetted}
use tillit.Resolver.Spans.{VersionSpan, merge_spans}
use tillit.Resolver.Spans.Merge.{IsCovered, merge_spans-IsCovered}

abbrev span : Bytes → Bytes → VersionSpan
span from to = record { from = from; to = to; status = vetted; decisions = [] }

abbrev spans : List VersionSpan
spans = span (codes "2") (codes "3") ∷ span (codes "1") (codes "2") ∷ []

merged : merge_spans spans ≡ span (codes "1") (codes "3") ∷ []
unfolding merge_spans tillit.Resolver.Spans.merge_sorted tillit.Base.sort
    tillit.Resolver.Spans.less_span tillit.Resolver.Version.compare_versions
    tillit.Resolver.Version.compare_numeric_dotted tillit.Base.Order.padded tillit.Base.split
    tillit.Resolver.Version.split_pre_release tillit.Base.cut tillit.Base.trim_prefix
    tillit.Resolver.Version.compare_segments tillit.Base.atoi tillit.Resolver.Spans.merge_from
    tillit.Resolver.Version.compare_pre tillit.Base.Release.empty_last tillit.Resolver.Spans.extend
merged = refl

merge_spans-IsCovered_example :
    IsCovered vetted (codes "2") (merge_spans spans) ↔ IsCovered vetted (codes "2") spans
merge_spans-IsCovered_example = merge_spans-IsCovered vetted (codes "2") spans
