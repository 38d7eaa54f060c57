-- ===== src/Templates/Tests.antt =====
-- A text with marks, rendered.

use notification_platform.Base.{◌≡◌, refl}
use notification_platform.Send.Template.{strip_two}
use notification_platform.Templates.Markdown.{render_markdown_lite}
use notification_platform.Templates.Markdown.Laws.{bare, bare-render_markdown_lite}

bold_and_code : render_markdown_lite "**Hi** __you__, `x` and **\n**" ≡ "Hi you, x and **\n**"
unfolding render_markdown_lite strip_two
bold_and_code = refl

bare-render_markdown_lite_example :
    bare (render_markdown_lite "a ***b** `` `c`") ≡ bare "a ***b** `` `c`"
bare-render_markdown_lite_example = bare-render_markdown_lite "a ***b** `` `c`"
